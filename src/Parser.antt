-- ===== src/Parser.antt =====
-- src/amun_parser.cpp and include/amun_parser.hpp: the state of the parser, and the outcomes of its functions.
-- The parser holds the tokenizer that it reads; what it uses of the shared context
-- (include/amun_context.hpp) is a part of its state. A parsing function takes the state to an outcome:
-- a result with the next state, a thrown "Stop" with the diagnostics in the state, the end of the
-- fuel, or `crash`: another exception, a failed assertion, or behaviour that C++ leaves undefined.
pub mod Reading
pub mod Checks
pub mod Calls
pub mod Types
pub mod Primary
pub mod Conditional
pub mod Directives
pub mod Operands
pub mod Postfix
pub mod Levels
pub mod Statements
pub mod Breaks
pub mod Loops
pub mod Control
pub mod Functions
pub mod Bodies
pub mod Enums
pub mod Declarations
pub mod Sources
pub mod Unit
pub mod Chains
pub mod Times
pub mod Laws
pub mod SelfReferences
pub mod Left
pub mod Ends
pub mod Rules
pub mod Leaves
pub mod Total
mod Tests
use amun.Prelude.{
  ℕ, zero, suc, ◌+◌, ◌-◌, ◌==◌, Bool, true, false, not, ◌&&◌, ◌||◌, List, [], ◌∷◌, ◌++◌, Option,
  none, some, if◌then◌else◌, ℤ,
}
use amun.Prelude.Text.{Bytes}
use amun.Token.{TokenKind, TokenSpan, Token, kind_eq, kind_value}
use amun.Token.{token_invalid, token_end_of_file, token_semicolon, token_greater}
use amun.Tokenizer.{Tokenizer}
use amun.Tokenizer
use amun.Tokenizer.Scan.{scan_next_token}
use amun.ScopedMap.{contains}
use amun.Types.{AmunType, StructType, NumberKind}
use amun.AliasTable.{Table}
use amun.AliasTable
use amun.Ast.{Expression}

pub data AstNodeScope : Type 0 where
  global_scope function_scope condition_scope : AstNodeScope

pub data FunctionKind : Type 0 where
  normal_function prefix_function infix_function postfix_function : FunctionKind

abbrev pub function_kind_value : FunctionKind → ℕ
function_kind_value normal_function = 0
function_kind_value prefix_function = 1
function_kind_value infix_function = 2
function_kind_value postfix_function = 3

abbrev pub function_kind_eq : FunctionKind → FunctionKind → Bool
function_kind_eq a b = function_kind_value a == function_kind_value b

pub data DiagnosticLevel : Type 0 where
  error warning : DiagnosticLevel

pub record Diagnostic : Type 0 where
  pub level : DiagnosticLevel
  pub position : TokenSpan
  pub message : Bytes

-- The fields of an `EnumType`.
pub record Enumeration : Type 0 where
  pub name : Token
  pub values : List (Bytes × ℤ)
  pub element_type : AmunType

-- What the parser reads of its surroundings: the path of a source file, which is the source manager's, and
-- the text that `std::to_string` gives for the largest and the lowest value of a floating point kind.
pub record Environment : Type 0 where
  pub resolve_source_path : ℕ → Bytes
  pub max_float_text : NumberKind → Bytes
  pub lowest_float_text : NumberKind → Bytes

-- The maps from names are association lists, the diagnostics are listed in the order of their reports.
pub record Context : Type 0 where
  pub environment : Environment
  pub should_report_warns : Bool
  pub diagnostics : List Diagnostic
  pub type_alias_table : Table
  pub functions : List (Bytes × FunctionKind)
  pub structures : List (Bytes × StructType)
  pub enumerations : List (Bytes × Enumeration)
  pub constants_table_map : List (List (Bytes × Expression))

-- The stack of loop levels is listed from its top.
pub record Parser : Type 0 where
  pub context : Context
  pub tokenizer : Tokenizer
  pub previous_token : Option Token
  pub current_token : Option Token
  pub next_token : Option Token
  pub generic_parameters_names : List Bytes
  pub current_ast_scope : AstNodeScope
  pub loop_levels_stack : List ℕ
  pub current_struct_name : Bytes
  pub current_struct_unknown_fields : ℕ

-- The constructors of the context and of the parser.
unfoldable pub new_context : Environment → Bool → Context
new_context environment should_report_warns = record {
  environment = environment;
  should_report_warns = should_report_warns;
  diagnostics = [];
  type_alias_table = AliasTable.new;
  functions = [];
  structures = [];
  enumerations = [];
  constants_table_map = [] ∷ [];
}

unfoldable pub new : Context → Tokenizer → Parser
new context tokenizer = record {
  context = context;
  tokenizer = tokenizer;
  previous_token = none;
  current_token = none;
  next_token = none;
  generic_parameters_names = [];
  current_ast_scope = global_scope;
  loop_levels_stack = [];
  current_struct_name = [];
  current_struct_unknown_fields = 0;
}

pub data Outcome {ℓ} (A : Type ℓ) : Type ℓ where
  ok : A → Parser → Outcome A
  stop : Parser → Outcome A
  no_fuel : Outcome A
  crash : Outcome A

abbrev pub Parse {ℓ} : Type ℓ → Type ℓ
Parse A = Parser → Outcome A

-- A function without a result.
abbrev pub Action : Type 0
Action = Parse {0} Unit

module _ {ℓ} {A : Type ℓ} where
  unfoldable pub pure : A → Parse A
  pure a s = ok a s

  unfoldable pub out_of_fuel : Parse A
  out_of_fuel s = no_fuel

  unfoldable pub undefined : Parse A
  undefined s = crash

  -- `report_error(position, message); throw "Stop";`
  unfoldable pub report_error : TokenSpan → Bytes → Parse A
  report_error position message s = stop (record s {
    context = record s.context {
      diagnostics =
          s.context.diagnostics
          ++ record { level = error; position = position; message = message } ∷ [];
    };
  })

  unfoldable pub value : Option A → Parse A
  value (some a) s = ok a s
  value none s = crash

module _ {ℓ κ} {A : Type ℓ} {B : Type κ} where
  abbrev pub continue_with : (A → Parse B) → Outcome A → Outcome B
  continue_with f (ok a s) = f a s
  continue_with f (stop s) = stop s
  continue_with f no_fuel = no_fuel
  continue_with f crash = crash

  infixl 10 ◌>>=◌
  unfoldable pub ◌>>=◌ : Parse A → (A → Parse B) → Parse B
  (m >>= f) s = continue_with f (m s)

  infixl 10 ◌>>◌
  abbrev pub ◌>>◌ : Parse A → Parse B → Parse B
  m >> n = m >>= λ _. n

unfoldable pub done : Action
done s = ok tt s

-- Reading and writing the fields of the state, but for the tokens and the tokenizer.
unfoldable pub gets {ℓ} : {A : Type ℓ} → (Parser → A) → Parse A
gets f s = ok (f s) s

unfoldable pub modify_context : (Context → Context) → Action
modify_context f s = ok tt (record s { context = f s.context })

unfoldable pub set_ast_scope : AstNodeScope → Action
set_ast_scope scope s = ok tt (record s { current_ast_scope = scope })

unfoldable pub set_generic_parameters_names : List Bytes → Action
set_generic_parameters_names names s = ok tt (record s { generic_parameters_names = names })

unfoldable pub set_loop_levels : List ℕ → Action
set_loop_levels levels s = ok tt (record s { loop_levels_stack = levels })

unfoldable pub set_struct_name : Bytes → Action
set_struct_name name s = ok tt (record s { current_struct_name = name })

unfoldable pub set_unknown_fields : ℕ → Action
set_unknown_fields n s = ok tt (record s { current_struct_unknown_fields = n })

unfoldable pub report_warning : TokenSpan → Bytes → Action
report_warning position message = modify_context (λ c. record c {
  diagnostics =
      c.diagnostics ++ record { level = warning; position = position; message = message } ∷ [];
})
