-- ===== src/Collector/Lineage/Reading.antt =====
-- pkg/collector/lineage.go: the events that are read from the bytes that ebpf/lineage.c writes.
use self_healing_kubernetes.Base.{
  ℕ, ◌≤◌, ◌<◌, ◌≡◌, refl, ◌∙◌, List, [], ◌∷◌, map, arith, length, ltb, not, keep, All, false, some,
  Bool, Option, lt→ltb, String, Time,
}
use self_healing_kubernetes.Base.Bytes.{Bytes, laid_out, length-laid_out, text}
use self_healing_kubernetes.ProcessGraph.Event.{EventEnvelope}
use self_healing_kubernetes.Cgroup.Scan.{ContainerInfo}
use self_healing_kubernetes.Collector.{null_term_str, wall_time}
use self_healing_kubernetes.Collector.Draining.{drain-map}
use self_healing_kubernetes.Collector.Lineage.{
  ForkEventRaw, fork_event_size, parse_fork_event, read_fork_event, read_fork_events,
}
use self_healing_kubernetes.Collector.Lineage.Layout.{
  fork_event_fields, IsForkEvent, parse_fork_event-laid_out,
}

-- A record of the ring buffer: cut short, or the C struct with 7 bytes of padding or more.
pub data RingRecord : Type 0 where
  short : Bytes → RingRecord
  whole : ForkEventRaw → (rest : Bytes) → RingRecord

abbrev pub ring_bytes : RingRecord → Bytes
ring_bytes (short bytes) = bytes
ring_bytes (whole r rest) = laid_out (fork_event_fields r rest)

abbrev pub IsRingRecord : RingRecord → Type 0
IsRingRecord (short bytes) = length bytes < 64
IsRingRecord (whole r rest) = IsForkEvent r × (7 ≤ length rest)

abbrev pub wholes : List RingRecord → List ForkEventRaw
wholes [] = []
wholes (short bytes ∷ records) = wholes records
wholes (whole r rest ∷ records) = r ∷ wholes records

-- What a fork event says of the processes.
pub record Fork : Type 0 where
  pub timestamp : Time
  pub cgroup_id : ℕ
  pub pid : ℕ
  pub ppid : ℕ
  pub process : String
  pub parent_process : String

abbrev pub fork_of : EventEnvelope → Fork
fork_of e = record {
  timestamp = e.timestamp;
  cgroup_id = e.cgroup_id;
  pid = e.pid;
  ppid = e.ppid;
  process = e.process;
  parent_process = e.parent_process;
}

abbrev pub raw_fork : (boot_offset : ℕ) → ForkEventRaw → Fork
raw_fork boot_offset r = record {
  timestamp = wall_time boot_offset r.fork_ts_ns;
  cgroup_id = r.cgroup_id;
  pid = r.tgid;
  ppid = r.ppid;
  process = text (null_term_str r.child_comm);
  parent_process = text (null_term_str r.parent_comm);
}

long_enough : Bytes → Bool
long_enough bytes = not (ltb (length bytes) fork_event_size)

whole-long :
    (r : ForkEventRaw) (rest : Bytes)
    → IsForkEvent r
    → 7 ≤ length rest
    → ltb (length (laid_out (fork_event_fields r rest))) 64 ≡ false
whole-long r rest fits pad =
    ground (
      arith,
      length-laid_out (fork_event_fields r rest),
      fits.parent_comm_fits,
      fits.child_comm_fits,
    )

kept_forks :
    (boot_offset : ℕ) (records : List RingRecord)
    → All IsRingRecord records
    → map
        (λ bytes. raw_fork boot_offset (parse_fork_event bytes))
        (keep (λ bytes. not (ltb (length bytes) fork_event_size)) (map ring_bytes records))
      ≡ map (raw_fork boot_offset) (wholes records)
kept_forks boot_offset [] h = refl
kept_forks boot_offset (short bytes ∷ records) h =
    rw (lt→ltb (length bytes) 64 h.0) (kept_forks boot_offset records h.1)
kept_forks boot_offset (whole r rest ∷ records) h =
    rw (whole-long r rest h.0.0 h.0.1)
      (cc (parse_fork_event-laid_out r rest h.0.0, kept_forks boot_offset records h.1))

module _ {S : Type 0} (resolve : ℕ → S → S × Option ContainerInfo) where
  -- If the ring buffer holds records that are shorter than the C struct, and structs in the C layout whose
  -- fields fit, each with its padding and any bytes after it, then the events that are read show the
  -- times, cgroups, processes and parents of the structs in their order, and none for the short records,
  -- whatever the resolver answers.
  pub read_fork_events_lem :
      (boot_offset : ℕ) (has_writer : Bool) (records : List RingRecord) (s : S)
      → All IsRingRecord records
      → map fork_of
          (read_fork_events resolve boot_offset has_writer (some (map ring_bytes records)) s).1
        ≡ map (raw_fork boot_offset) (wholes records)
  unfolding read_fork_events
  read_fork_events_lem boot_offset has_writer records s h =
      drain-map fork_of (λ bytes. raw_fork boot_offset (parse_fork_event bytes)) fork_event_size
        (read_fork_event resolve boot_offset) (λ bytes s. refl) (map ring_bytes records) s
      ∙ kept_forks boot_offset records h
