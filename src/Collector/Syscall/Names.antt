-- ===== src/Collector/Syscall/Names.antt =====
-- pkg/collector/syscall_names.go: the names of the system calls of x86_64.
use self_healing_kubernetes.Base.{ℕ, String, ◌<>◌, none, some, [], ◌∷◌, Keyed, lookup, nat_Eq}
use self_healing_kubernetes.Base.Bytes.{decimal}

abbrev pub syscall_names : Keyed ℕ String
syscall_names =
    (0, "read")
    ∷ (1, "write")
    ∷ (2, "open")
    ∷ (3, "close")
    ∷ (4, "stat")
    ∷ (5, "fstat")
    ∷ (6, "lstat")
    ∷ (7, "poll")
    ∷ (8, "lseek")
    ∷ (9, "mmap")
    ∷ (10, "mprotect")
    ∷ (11, "munmap")
    ∷ (12, "brk")
    ∷ (13, "rt_sigaction")
    ∷ (14, "rt_sigprocmask")
    ∷ (15, "rt_sigreturn")
    ∷ (16, "ioctl")
    ∷ (17, "pread64")
    ∷ (18, "pwrite64")
    ∷ (19, "readv")
    ∷ (20, "writev")
    ∷ (21, "access")
    ∷ (22, "pipe")
    ∷ (23, "select")
    ∷ (24, "sched_yield")
    ∷ (25, "mremap")
    ∷ (26, "msync")
    ∷ (27, "mincore")
    ∷ (28, "madvise")
    ∷ (32, "dup")
    ∷ (33, "dup2")
    ∷ (35, "nanosleep")
    ∷ (39, "getpid")
    ∷ (41, "socket")
    ∷ (42, "connect")
    ∷ (43, "accept")
    ∷ (44, "sendto")
    ∷ (45, "recvfrom")
    ∷ (46, "sendmsg")
    ∷ (47, "recvmsg")
    ∷ (48, "shutdown")
    ∷ (49, "bind")
    ∷ (50, "listen")
    ∷ (51, "getsockname")
    ∷ (52, "getpeername")
    ∷ (53, "socketpair")
    ∷ (54, "setsockopt")
    ∷ (55, "getsockopt")
    ∷ (56, "clone")
    ∷ (57, "fork")
    ∷ (58, "vfork")
    ∷ (59, "execve")
    ∷ (60, "exit")
    ∷ (61, "wait4")
    ∷ (62, "kill")
    ∷ (63, "uname")
    ∷ (72, "fcntl")
    ∷ (73, "flock")
    ∷ (74, "fsync")
    ∷ (75, "fdatasync")
    ∷ (76, "truncate")
    ∷ (77, "ftruncate")
    ∷ (78, "getdents")
    ∷ (79, "getcwd")
    ∷ (80, "chdir")
    ∷ (81, "fchdir")
    ∷ (82, "rename")
    ∷ (83, "mkdir")
    ∷ (84, "rmdir")
    ∷ (85, "creat")
    ∷ (86, "link")
    ∷ (87, "unlink")
    ∷ (88, "symlink")
    ∷ (89, "readlink")
    ∷ (90, "chmod")
    ∷ (91, "fchmod")
    ∷ (92, "chown")
    ∷ (93, "fchown")
    ∷ (94, "lchown")
    ∷ (95, "umask")
    ∷ (137, "statfs")
    ∷ (138, "fstatfs")
    ∷ (202, "futex")
    ∷ (228, "clock_gettime")
    ∷ (232, "epoll_wait")
    ∷ (233, "epoll_ctl")
    ∷ (257, "openat")
    ∷ (258, "mkdirat")
    ∷ (259, "mknodat")
    ∷ (260, "fchownat")
    ∷ (261, "futimesat")
    ∷ (262, "newfstatat")
    ∷ (263, "unlinkat")
    ∷ (264, "renameat")
    ∷ (265, "linkat")
    ∷ (266, "symlinkat")
    ∷ (267, "readlinkat")
    ∷ (268, "fchmodat")
    ∷ (269, "faccessat")
    ∷ (272, "unshare")
    ∷ (281, "epoll_pwait")
    ∷ (288, "accept4")
    ∷ (290, "eventfd2")
    ∷ (291, "epoll_create1")
    ∷ (292, "dup3")
    ∷ (293, "pipe2")
    ∷ []

unfoldable pub syscall_name : ℕ → String
syscall_name id = elim (lookup id syscall_names) [ some name ↦ name | none ↦ "sys_" <> decimal id ]
