-- ===== src/Collector/Network/Events.antt =====
-- pkg/collector/network.go: the changes of the states of TCP connections, from the ring buffer.
use self_healing_kubernetes.Base.{ℕ, String, Option, List, Time}
use self_healing_kubernetes.Base.Bytes.{Bytes, slice, little_endian}
use self_healing_kubernetes.Cgroup.Scan.{ContainerInfo}
use self_healing_kubernetes.Collector.{container_name, drain}
use self_healing_kubernetes.Collector.Network.{state_name, uint32_to_ip}

pub record TcpEventRaw : Type 0 where
  pub cgroup_id : ℕ
  pub ts_ns : ℕ
  pub saddr : ℕ
  pub daddr : ℕ
  pub sport : ℕ
  pub dport : ℕ
  pub family : ℕ
  pub pad : ℕ
  pub old_state : ℕ
  pub new_state : ℕ
  pub saddr_v6 : Bytes
  pub daddr_v6 : Bytes

abbrev pub tcp_event_size : ℕ
tcp_event_size = 72

-- A state is the 32-bit pattern of an int32, which `uint32(...)` gives back.
unfoldable pub parse_tcp_event : Bytes → TcpEventRaw
parse_tcp_event bytes = record {
  cgroup_id = little_endian (slice 0 8 bytes);
  ts_ns = little_endian (slice 8 8 bytes);
  saddr = little_endian (slice 16 4 bytes);
  daddr = little_endian (slice 20 4 bytes);
  sport = little_endian (slice 24 2 bytes);
  dport = little_endian (slice 26 2 bytes);
  family = little_endian (slice 28 2 bytes);
  pad = little_endian (slice 30 2 bytes);
  old_state = little_endian (slice 32 4 bytes);
  new_state = little_endian (slice 36 4 bytes);
  saddr_v6 = slice 40 16 bytes;
  daddr_v6 = slice 56 16 bytes;
}

pub record TcpEvent : Type 0 where
  pub timestamp : Time
  pub cgroup_id : ℕ
  pub container_name : String
  pub saddr : String
  pub daddr : String
  pub sport : ℕ
  pub dport : ℕ
  pub family : ℕ
  pub old_state : String
  pub new_state : String

-- All the events of a drain are given one time.
module _ {S : Type 0} (resolve : ℕ → S → S × Option ContainerInfo) where
  abbrev pub read_tcp_event : (now : Time) → Bytes → S → S × TcpEvent
  read_tcp_event now bytes s =
      let raw = parse_tcp_event bytes in
      let answer = resolve raw.cgroup_id s in
      (
        answer.0,
        record {
          timestamp = now;
          cgroup_id = raw.cgroup_id;
          container_name = container_name raw.cgroup_id answer.1;
          saddr = uint32_to_ip raw.saddr;
          daddr = uint32_to_ip raw.daddr;
          sport = raw.sport;
          dport = raw.dport;
          family = raw.family;
          old_state = state_name raw.old_state;
          new_state = state_name raw.new_state;
        },
      )

  unfoldable pub read_tcp_events : (now : Time) → List Bytes → S → S × List TcpEvent
  read_tcp_events now records s = drain tcp_event_size (read_tcp_event now) records s
