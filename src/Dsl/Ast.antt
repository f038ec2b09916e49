-- ===== src/Dsl/Ast.antt =====
-- src/dsl/ast.rs, over the type `F` of `f64`.
use gwead.Prelude.{ℕ, Bool, List}

abbrev pub Str : Type 0
Str = List ℕ

pub data Root : Type 0 where
  input config secrets trigger vars item implicit : Root
  steps : Str → Root

pub data PathSegment : Type 0 where
  field : Str → PathSegment
  index : ℕ → PathSegment
  wildcard : PathSegment
  filter_eq : Str → Str → PathSegment

pub record Reference : Type 0 where
  pub root : Root
  pub path : List PathSegment

pub data Literal (F : Type 0) : Type 0 where
  string : Str → Literal F
  number : F → Literal F
  bool : Bool → Literal F
  null : Literal F

pub data UnaryOp : Type 0 where
  not : UnaryOp

pub data BinaryOp : Type 0 where
  eq not_eq lt le gt ge and or coalesce : BinaryOp

pub data Expression (F : Type 0) : Type 0 where
  literal : Literal F → Expression F
  ref : Reference → Expression F
  unary : UnaryOp → Expression F → Expression F
  binary : BinaryOp → Expression F → Expression F → Expression F
