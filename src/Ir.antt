-- ===== src/Ir.antt =====
-- internal/ir/types.go: the output of a compiled module, and the calls of transforms.
use scrape_kdl.Common.Int.{ℤ}
use scrape_kdl.Common.Text.{Bytes}
use scrape_kdl.Common.{Bool, List, Option}
use scrape_kdl.Source.{Span}
use scrape_kdl.Typesys.{Ty}

pub record FieldSelection : Type 0 where
  pub selector : Bytes
  pub match : Bytes
  pub span : Span

-- A value source with its `Kind`.
pub data ValueSource : Type 0 where
  text_source html_source : (kind : Bytes) (raw_type : Ty) (span : Span) → ValueSource
  attribute_source : (kind name : Bytes) (raw_type : Ty) (span : Span) → ValueSource
  javascript_source :
      (kind scope source : Bytes) (returns : Ty) (timeout_ms : Option ℤ) (span : Span) → ValueSource

pub data TransformTarget : Type 0 where
  builtin_target : (kind name : Bytes) → TransformTarget
  declared_target : (kind symbol_id : Bytes) → TransformTarget

pub record NamedArgument : Type 0 where
  pub name : Bytes
  pub value : Bytes

pub record TransformCall : Type 0 where
  pub target : TransformTarget
  pub positional_arguments : List Bytes
  pub named_arguments : List NamedArgument
  pub input : Ty
  pub output : Ty
  pub span : Span

pub record Field : Type 0 where
  pub kind : Bytes
  pub id : Bytes
  pub name : Bytes
  pub successful_type : Ty
  pub effective_type : Ty
  pub required : Bool
  pub default : Option Bytes
  pub selection : Option FieldSelection
  pub value_source : ValueSource
  pub transforms : List TransformCall
  pub on_error : Bytes
  pub span : Span

-- The struct `Collection` without its `Row`.
pub record Collection : Type 0 where
  pub kind : Bytes
  pub id : Bytes
  pub name : Bytes
  pub selector : Bytes
  pub required : Bool
  pub min_items : ℤ
  pub max_items : Option ℤ
  pub on_row_error : Bytes
  pub span : Span

-- The members of an `OutputObject`, whose `Kind` nothing reads; `nil_member` is a member that holds
-- no type.
pub data OutputObject : Type 0 where
  no_output : OutputObject
  field_member : Field → OutputObject → OutputObject
  collection_member : Collection → (row : OutputObject) → OutputObject → OutputObject
  nil_member : OutputObject → OutputObject

pub record TransformBase : Type 0 where
  pub symbol_id : Bytes
  pub name : Bytes
  pub origin : Bytes
  pub input : Ty
  pub output : Ty
  pub span : Span

pub record MatchCase : Type 0 where
  pub when : Bytes
  pub then_value : Bytes
  pub span : Span

pub data Transform : Type 0 where
  pipeline_transform : (kind : Bytes) → TransformBase → (calls : List TransformCall) → Transform
  match_transform :
      (kind : Bytes) → TransformBase → (cases : List MatchCase) → (default : Bytes) → Transform
  external_transform : (kind : Bytes) → TransformBase → (symbol : Bytes) → Transform

-- The declaration of an input, and the segments of a URL template; an `other_segment` is of no type
-- that the executor knows.
pub record Input : Type 0 where
  pub name : Bytes
  pub type_name : Bytes
  pub required : Bool
  pub default : Option Bytes
  pub span : Span

pub data TemplateSegment : Type 0 where
  literal_segment : (kind value : Bytes) → TemplateSegment
  input_segment : (kind name : Bytes) → TemplateSegment
  other_segment : TemplateSegment
