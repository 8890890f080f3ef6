-- ===== src/Command.antt =====
-- internal/command/table.go: the command catalog.
pub mod Facts
use kafka3o_gateway.Prelude.{
  String, Bool, true, false, Option, none, some, List, [], ◌∷◌, ◌==◌, string_eq,
}
use kafka3o_gateway.Prelude.{if◌then◌else◌}

-- `R` is reachable by reader keys, `W` by operator keys only.
pub data Access : Type 0 where
  r w : Access

pub record Descriptor : Type 0 where
  pub id : String
  pub name : String
  pub access : Access
  pub destructive : Bool
  pub data_plane : Bool

-- A row's flags as the literals of `Table` give them; a flag left out is false.
abbrev row : String → String → Access → Bool → Bool → Descriptor
row i n a d p = record { id = i; name = n; access = a; destructive = d; data_plane = p }

unfoldable pub table : List Descriptor
table =
    row "C1" "Describe cluster" r false false
    ∷ row "C2" "Describe broker configuration" r false false
    ∷ row "C3" "Gateway health & connectivity" r false false
    ∷ row "C4" "Cluster health summary" r false false
    ∷ row "T1" "List topics" r false false
    ∷ row "T2" "Describe topic" r false false
    ∷ row "T3" "Partition / topic on-disk size" r false false
    ∷ row "T4" "Message count in a time window" r false false
    ∷ row "M1" "Read messages" r false true
    ∷ row "M2" "Fetch single message" r false true
    ∷ row "M3" "Search messages by regex" r false true
    ∷ row "M4" "Search messages by JSONPath filter" r false true
    ∷ row "M5" "Produce message(s)" w false true
    ∷ row "M6" "Bulk produce from upload" w false true
    ∷ row "M7" "Send tombstone for a key" w false true
    ∷ row "G1" "List consumer groups" r false false
    ∷ row "G2" "Describe consumer group" r false false
    ∷ row "G3" "Groups consuming a topic" r false false
    ∷ row "T5" "Create topic" w false false
    ∷ row "T6" "Bulk create topics" w false false
    ∷ row "T7" "Delete topic" w true false
    ∷ row "T8" "Bulk delete topics" w true false
    ∷ row "T9" "Alter topic configuration" w true false
    ∷ row "T10" "Add partitions" w true false
    ∷ row "T11" "Delete records" w true false
    ∷ row "T12" "Purge topic" w true false
    ∷ row "G4" "Reset consumer group offsets" w true false
    ∷ row "G5" "Delete consumer group" w true false
    ∷ row "G6" "Remove members from consumer group" w true false
    ∷ row "G7" "Clone consumer group offsets" w true false
    ∷ row "M8" "Replay / copy message range" w true true
    ∷ row "C5" "Alter broker dynamic configuration" w true false
    ∷ row "C6" "KRaft quorum status" r false false
    ∷ row "C7" "In-progress partition reassignments" r false false
    ∷ row "C8" "Broker disk usage per log directory" r false false
    ∷ row "C9" "Partition reassignment & leader election" w true false
    ∷ row "C10" "Throughput sample" r false false
    ∷ row "C11" "Export topic / cluster definitions" r false false
    ∷ row "C12" "Import / apply topic definitions" w true false
    ∷ row "S1" "Manage SCRAM credentials" w true false
    ∷ row "S2" "Manage client quotas" w true false
    ∷ []

pub find : String → List Descriptor → Option Descriptor
find i [] = none
find i (d ∷ ds) = if d.id == i then some d else find i ds

unfoldable pub lookup : String → Option Descriptor
unfolding find table
lookup i = find i table

-- The zero Descriptor, which `desc, _ := command.Lookup(id)` leaves for an unknown id. Its Access is
-- the empty string, which is not `W`; the model gives it `R`, and no caller looks up an unknown id.
abbrev pub zero_descriptor : Descriptor
zero_descriptor = row "" "" r false false

unfoldable pub lookup_or_zero : String → Descriptor
unfolding lookup
lookup_or_zero i = elim (lookup i) [ some d ↦ d | none ↦ zero_descriptor ]
