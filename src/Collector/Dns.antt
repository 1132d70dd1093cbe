-- ===== src/Collector/Dns.antt =====
-- pkg/collector/dns.go: the events of DNS queries.
use self_healing_kubernetes.Base.{
  ℕ, String, ◌<>◌, Bool, false, Option, none, some, List, [], ◌∷◌, nat_eq, if◌then◌else◌, Keyed,
  lookup, nat_Eq,
}
use self_healing_kubernetes.Base.Bytes.{Bytes, text, slice, little_endian, decimal}
use self_healing_kubernetes.ProcessGraph.Event.{EventEnvelope, Value, uint16, flag}
use self_healing_kubernetes.Cgroup.Scan.{ContainerInfo}
use self_healing_kubernetes.Collector.{null_term_str, wall_time, container_name, drain, written}
use self_healing_kubernetes.Collector.Lineage.{LineageLookup, parent_comm}

pub record DnsEventRaw : Type 0 where
  pub cgroup_id : ℕ
  pub send_ts_ns : ℕ
  pub latency_ns : ℕ
  pub tgid : ℕ
  pub ppid : ℕ
  pub comm : Bytes
  pub qname : Bytes
  pub qtype : ℕ
  pub rcode : ℕ
  pub has_response : ℕ
  pub via_connect : ℕ

-- The size of the struct with its padding.
abbrev pub dns_event_size : ℕ
dns_event_size = 312

abbrev pub qtype_names : Keyed ℕ String
qtype_names =
    (1, "A")
    ∷ (2, "NS")
    ∷ (5, "CNAME")
    ∷ (6, "SOA")
    ∷ (12, "PTR")
    ∷ (15, "MX")
    ∷ (16, "TXT")
    ∷ (28, "AAAA")
    ∷ (33, "SRV")
    ∷ (255, "ANY")
    ∷ []

abbrev pub rcode_names : Keyed ℕ String
rcode_names =
    (0, "NOERROR")
    ∷ (1, "FORMERR")
    ∷ (2, "SERVFAIL")
    ∷ (3, "NXDOMAIN")
    ∷ (4, "NOTIMP")
    ∷ (5, "REFUSED")
    ∷ []

-- `if s, ok := names[n]; ok { return s }; return prefix + n`
unfoldable pub name_or_number : Keyed ℕ String → (prefix : String) → ℕ → String
name_or_number names prefix n = elim (lookup n names) [
  | some name ↦ name
  | none ↦ prefix <> decimal n
]

abbrev pub qtype_name : ℕ → String
qtype_name qt = name_or_number qtype_names "TYPE" qt

abbrev pub rcode_name : ℕ → String
rcode_name rc = name_or_number rcode_names "RCODE" rc

abbrev pub resolver_style : ℕ → String
resolver_style via_connect = if nat_eq via_connect 1 then "connected" else "sendto"

unfoldable pub parse_dns_event : Bytes → DnsEventRaw
parse_dns_event bytes = record {
  cgroup_id = little_endian (slice 0 8 bytes);
  send_ts_ns = little_endian (slice 8 8 bytes);
  latency_ns = little_endian (slice 16 8 bytes);
  tgid = little_endian (slice 24 4 bytes);
  ppid = little_endian (slice 28 4 bytes);
  comm = slice 32 16 bytes;
  qname = slice 48 256 bytes;
  qtype = little_endian (slice 304 2 bytes);
  rcode = little_endian (slice 306 2 bytes);
  has_response = little_endian (slice 308 1 bytes);
  via_connect = little_endian (slice 309 1 bytes);
}

-- `in_millis` is the conversion of the latency to `float64` and its division by 1e6.
module _ {S : Type 0} (resolve : ℕ → S → S × Option ContainerInfo) (boot_offset : ℕ)
    (lineage : Option LineageLookup) (in_millis : ℕ → Value) where
  abbrev pub dns_event_to_envelope : DnsEventRaw → (name : String) → EventEnvelope
  dns_event_to_envelope raw name = record {
    timestamp = wall_time boot_offset raw.send_ts_ns;
    cgroup_id = raw.cgroup_id;
    container_name = name;
    pid = raw.tgid;
    ppid = raw.ppid;
    process = text (null_term_str raw.comm);
    parent_process = parent_comm lineage raw.cgroup_id raw.ppid "";
    event_type = "dns_query";
    ancestry_truncated = false;
    metadata =
        ("container", Value.text name)
        ∷ ("query", Value.text (text (null_term_str raw.qname)))
        ∷ ("query_type", Value.text (qtype_name raw.qtype))
        ∷ ("qtype_num", uint16 raw.qtype)
        ∷ ("rcode", Value.text (rcode_name raw.rcode))
        ∷ ("rcode_num", uint16 raw.rcode)
        ∷ ("latency_ms", in_millis raw.latency_ns)
        ∷ ("has_response", flag (nat_eq raw.has_response 1))
        ∷ ("via_connect", flag (nat_eq raw.via_connect 1))
        ∷ ("resolver_style", Value.text (resolver_style raw.via_connect))
        ∷ [];
  }

  abbrev pub read_dns_event : Bytes → S → S × EventEnvelope
  read_dns_event bytes s =
      let raw = parse_dns_event bytes in
      let answer = resolve raw.cgroup_id s in
      (answer.0, dns_event_to_envelope raw (container_name raw.cgroup_id answer.1))

  unfoldable pub read_dns_events :
      (has_writer : Bool) → List Bytes → S → S × List EventEnvelope × List EventEnvelope
  read_dns_events has_writer records s =
      let drained = drain dns_event_size read_dns_event records s in
      (drained.0, drained.1, written has_writer drained.1)
