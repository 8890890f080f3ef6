-- ===== src/Message/Service.antt =====
-- internal/service/message/service.go: what the service calls and how it is configured, with the
-- types of internal/kafka/types.go that its calls exchange.
use kafka3o_gateway.Prelude.{[], ◌∷◌, ℤ, String, Bool, Option, List, ◌≡◌, arith, inl, inr}
use kafka3o_gateway.Prelude.Map.{Map}
use kafka3o_gateway.Errors.{Err, Result, ok, err, Result-cases}
use kafka3o_gateway.Audit.{Io, Sink}
use kafka3o_gateway.Core.Run.{Runner}
use kafka3o_gateway.Scan.Types.{Bytes, KafkaHeader, Spec}
use kafka3o_gateway.Scan.Run.{Consumer}

-- `a, err := m(); if err != nil { return err }` of stateful calls
infixl 10 ◌>=>◌
abbrev pub ◌>=>◌ :
    {P W A B : Type 0} → Io W (Result P A) → (A → Io W (Result P B)) → Io W (Result P B)
(m >=> f) w = let (r, w') = m w in elim r [ ok a ↦ f a w' | err e ↦ (err e, w') ]

-- A chain that succeeds ran its first call, with success, and then the rest.
pub >=>-ok :
    {P W A B : Type 0} (m : Io W (Result P A)) (f : A → Io W (Result P B)) (w w' : W) (b : B)
    → (m >=> f) w ≡ (ok b, w')
    → (a : A) × ((m w).0 ≡ ok a) × (f a (m w).1 ≡ (ok b, w'))
>=>-ok m f w w' b h = elim (Result-cases (m w).0) [
  | inl (e, failed) ↦ ground arith
  | inr (a, fine) ↦ (a, fine, ground arith)
]

pub record Partition : Type 0 where
  pub id : ℤ
  pub leader : ℤ
  pub replicas : List ℤ
  pub isr : List ℤ
  pub begin_offset : ℤ
  pub end_offset : ℤ

pub record Topic : Type 0 where
  pub name : String
  pub internal : Bool
  pub replication_factor : ℤ
  pub partitions : List Partition

pub record ProduceRequest : Type 0 where
  pub key : Bytes
  pub value : Bytes
  pub headers : List KafkaHeader
  pub partition : Option ℤ
  pub timestamp : ℤ

pub record ProduceResult (P : Type 0) : Type 0 where
  pub partition : ℤ
  pub offset : ℤ
  pub timestamp : ℤ
  pub error : Option (Err P)

-- Range, RangeBytes and RangeDuration
pub record Range : Type 0 where
  pub default : ℤ
  pub ceiling : ℤ

pub record Bounds : Type 0 where
  pub limit : Range
  pub max_scan : Range
  pub max_matches : Range
  pub max_bytes : Range
  pub max_time : Range
  pub regex_timeout : ℤ
  pub max_bulk_body_bytes : ℤ
  pub replay : Range

-- The service over its admin client, producer, consumer factory, clock, auditor and runner.
pub record Service (P W : Type 0) : Type 0 where
  pub list_start_offsets : String → Io W (Result P (Map ℤ ℤ))
  pub list_end_offsets : String → Io W (Result P (Map ℤ ℤ))
  pub list_offsets_after_milli : String → ℤ → Io W (Result P (Map ℤ ℤ))
  pub describe_topics : String → Io W (Result P Topic)
  pub produce : String → List ProduceRequest → Io W (Result P (List (ProduceResult P)))
  pub new_consumer : Io W (Result P (Consumer P))
  pub bounds : Bounds
  pub now : Io W ℤ
  pub sinks : List (Sink P W)
  pub new_event_id : Io W String
  pub runner : Runner P

-- The state after a scan that succeeded: one that has no partitions reads the clock only once.
abbrev pub after_scan : {W : Type 0} → Spec → W → W → W
after_scan spec once twice = elim spec.partitions [ [] ↦ once | _ ∷ _ ↦ twice ]
