-- ===== src/Collector/Network.antt =====
-- pkg/collector/network.go: the TCP connections of the containers and the changes of their states.
pub mod Summary
pub mod Events
use self_healing_kubernetes.Base.{
  ℕ, ◌+◌, ◌/◌, ◌%◌, ◌^◌, ◌≡◌, ◌↔◌, String, ◌<>◌, Bool, true, false, not, ◌&&◌, Option, none, some,
  List, [], ◌∷◌, arith, ltb, nat_eq, Eq, ◌==◌, string_Eq, if◌then◌else◌, Keyed, lookup, insert,
  nat_Eq, Time,
}
use self_healing_kubernetes.Base.Bytes.{Bytes, text, slice, little_endian, decimal}
use self_healing_kubernetes.Cgroup.Scan.{ContainerInfo}
use self_healing_kubernetes.Collector.{container_name, drain}
use self_healing_kubernetes.Collector.Polling.{Floats, Polled, poll, delete_keys}

abbrev pub tcp_state_names : Keyed ℕ String
tcp_state_names =
    (1, "ESTABLISHED")
    ∷ (2, "SYN_SENT")
    ∷ (3, "SYN_RECV")
    ∷ (4, "FIN_WAIT1")
    ∷ (5, "FIN_WAIT2")
    ∷ (6, "TIME_WAIT")
    ∷ (7, "CLOSE")
    ∷ (8, "CLOSE_WAIT")
    ∷ (9, "LAST_ACK")
    ∷ (10, "LISTEN")
    ∷ (11, "CLOSING")
    ∷ (12, "NEW_SYN_RECV")
    ∷ []

unfoldable pub state_name : ℕ → String
state_name state = elim (lookup state tcp_state_names) [
  | some name ↦ name
  | none ↦ "UNKNOWN(" <> (decimal state <> ")")
]

-- The byte `i` of a number, and `net.IP.String` of its four bytes.
abbrev pub octet : ℕ → String
octet n = decimal (n % 256)

unfoldable pub uint32_to_ip : ℕ → String
uint32_to_ip n =
    octet n
    <> ("." <> (octet (n / 256) <> ("." <> (octet (n / 65536) <> ("." <> octet (n / 16777216))))))

pub record ConnKey : Type 0 where
  pub cgroup_id : ℕ
  pub saddr : ℕ
  pub daddr : ℕ
  pub sport : ℕ
  pub dport : ℕ
  pub pad : ℕ

abbrev pub conn_beq : ConnKey → ConnKey → Bool
conn_beq a b =
    nat_eq a.cgroup_id b.cgroup_id
    && nat_eq a.saddr b.saddr
    && nat_eq a.daddr b.daddr
    && nat_eq a.sport b.sport
    && nat_eq a.dport b.dport
    && nat_eq a.pad b.pad

pub conn_beq_iff : (a b : ConnKey) → (conn_beq a b ≡ true) ↔ (a ≡ b)
conn_beq_iff a b = (ground arith, ground arith)

instance abbrev pub conn_Eq : Eq ConnKey
conn_Eq = record { equal = conn_beq; equal_iff = conn_beq_iff }

pub record ConnStats : Type 0 where
  pub state : ℕ
  pub retransmits : ℕ
  pub first_seen_ns : ℕ
  pub last_seen_ns : ℕ

module _ (floats : Floats) where
  open floats use {Float}

  pub record ConnSample : Type 0 where
    pub cgroup_id : ℕ
    pub container_name : String
    pub saddr : String
    pub daddr : String
    pub sport : ℕ
    pub dport : ℕ
    pub state : String
    pub retransmits : ℕ
    pub age_seconds : Float

  abbrev pub age_of : (now first_seen : ℕ) → Float
  age_of now first_seen =
      if ltb 0 first_seen
      then floats.divide (floats.age now first_seen) (floats.from_nat 1_000_000_000)
      else floats.from_nat 0

  abbrev pub flow_of :
      {S : Type 0} → (now : Time) → ConnKey → ConnStats → ContainerInfo → S → S × ConnSample
  flow_of now key val info s = (
    s,
    record {
      cgroup_id = key.cgroup_id;
      container_name = text info.name;
      saddr = uint32_to_ip key.saddr;
      daddr = uint32_to_ip key.daddr;
      sport = key.sport;
      dport = key.dport;
      state = state_name val.state;
      retransmits = val.retransmits;
      age_seconds = age_of now val.first_seen_ns;
    },
  )

  pub record NetSummary : Type 0 where
    pub cgroup_id : ℕ
    pub container_name : String
    pub established : ℕ
    pub time_wait : ℕ
    pub close_wait : ℕ
    pub listen : ℕ
    pub other_states : ℕ
    pub active_flows : ℕ
    pub total_retransmits : ℕ

  abbrev pub new_summary : ConnSample → NetSummary
  new_summary f = record {
    cgroup_id = f.cgroup_id;
    container_name = f.container_name;
    established = 0;
    time_wait = 0;
    close_wait = 0;
    listen = 0;
    other_states = 0;
    active_flows = 0;
    total_retransmits = 0;
  }

  -- `switch f.State`
  unfoldable pub count_state : String → NetSummary → NetSummary
  count_state state s =
      if state == "ESTABLISHED"
      then record s { established = s.established + 1 }
      else if state == "TIME_WAIT"
      then record s { time_wait = s.time_wait + 1 }
      else if state == "CLOSE_WAIT"
      then record s { close_wait = s.close_wait + 1 }
      else if state == "LISTEN"
      then record s { listen = s.listen + 1 }
      else record s { other_states = s.other_states + 1 }

  -- The sum of the retransmits is a uint32.
  abbrev pub add_flow : ConnSample → NetSummary → NetSummary
  add_flow f s = count_state f.state (record s {
    active_flows = s.active_flows + 1;
    total_retransmits = (s.total_retransmits + f.retransmits) % 2 ^ 32;
  })

  abbrev pub summary_or_new : ConnSample → Option NetSummary → NetSummary
  summary_or_new f none = new_summary f
  summary_or_new f (some s) = s

  unfoldable pub summarise : List ConnSample → Keyed ℕ NetSummary → Keyed ℕ NetSummary
  summarise [] m = m
  summarise (f ∷ flows) m =
      summarise flows (insert f.cgroup_id (add_flow f (summary_or_new f (lookup f.cgroup_id m))) m)

  module _ {S : Type 0} (resolve : ℕ → S → S × Option ContainerInfo) where
    -- `none` is the error of the walk. The kernel's map is left with the cgroups that are known.
    pub record Flows : Type 0 where
      pub state : S
      pub conn_map : Keyed ConnKey ConnStats
      pub flows : Option (List ConnSample)

    unfoldable pub collect_flows : Time → (fails : Bool) → Keyed ConnKey ConnStats → S → Flows
    collect_flows now fails conn_map s =
        let polled = poll resolve (λ key. key.cgroup_id) (flow_of now) conn_map s in
        if fails
        then record { state = polled.state; conn_map = conn_map; flows = none }
        else record {
          state = polled.state;
          conn_map = delete_keys polled.to_delete conn_map;
          flows = some polled.samples;
        }

    -- `range_summaries` is the order in which Go ranges over a map.
    unfoldable pub collect_summary :
        (range_summaries : Keyed ℕ NetSummary → List NetSummary)
        → Time
        → (fails : Bool) → Keyed ConnKey ConnStats
        → S
        → Option (List NetSummary)
    collect_summary range_summaries now fails conn_map s =
        elim (collect_flows now fails conn_map s).flows [
          | none ↦ none
          | some flows ↦ some (range_summaries (summarise flows []))
        ]
