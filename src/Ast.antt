-- ===== src/Ast.antt =====
-- include/amun_ast.hpp: the tree that the parser builds, with the classes' names and the fields that
-- their constructors set. A shared pointer to a node is the node; one that may be null is a
-- `MaybeExpression`. What the type checker fills in later is left out: the types of expressions other
-- than those the parser gives, the implicit parameters of a lambda, the constness of an array.
use amun.Prelude.{ℕ, suc, Bool, true, false, List, ℤ}
use amun.Prelude.Text.{Bytes}
use amun.Token.{TokenKind, Token}
use amun.Types.{AmunType, Types, MaybeType, StructType}

pub record Parameter : Type 0 where
  pub name : Token
  pub type : AmunType

-- name, parameters, return_type, is_external, has_varargs, varargs_type, is_generic,
-- generic_parameters
pub data FunctionPrototype : Type 0 where
  function_prototype :
      Token
      → List Parameter
      → AmunType
      → Bool
      → Bool
      → MaybeType
      → Bool
      → List Bytes
      → FunctionPrototype

-- `Expressions`, `Statements`, `ConditionalBlocks` and `SwitchCases` are the vectors. An array that
-- `@vec` turned into a vector is `vector_expression` with the array's fields.
mutual
  pub data Expression : Type 0 where
    if_expression : List Token → Expressions → Expressions → Expression
    switch_expression :
        Token → Expression → Expressions → Expressions → MaybeExpression → TokenKind → Expression
    tuple_expression : Token → Expressions → Expression
    assign_expression : Expression → Token → Expression → Expression
    binary_expression : Expression → Token → Expression → Expression
    bitwise_expression : Expression → Token → Expression → Expression
    comparison_expression : Expression → Token → Expression → Expression
    logical_expression : Expression → Token → Expression → Expression
    prefix_unary_expression : Token → Expression → Expression
    postfix_unary_expression : Token → Expression → Expression
    call_expression : Token → Expression → Expressions → Types → Expression
    initialize_expression : Token → AmunType → Expressions → Expression
    lambda_expression : Token → List Parameter → AmunType → Statements → Expression
    dot_expression : Token → Expression → Token → Expression
    dot_index_expression : Token → Expression → Token → ℤ → Expression
    cast_expression : Token → AmunType → Expression → Expression
    type_size_expression : AmunType → Expression
    type_align_expression : AmunType → Expression
    value_size_expression : Expression → Expression
    index_expression : Token → Expression → Expression → Expression
    enum_access_expression : Token → Token → ℤ → AmunType → Expression
    array_expression : Token → Expressions → Expression
    vector_expression : Token → Expressions → Expression
    string_expression : Token → Expression
    literal_expression : Token → Expression
    number_expression : Token → AmunType → Expression
    character_expression : Token → Expression
    boolean_expression : Token → Expression
    null_expression : Token → Expression
    undefined_expression : Token → Expression
    infinity_expression : AmunType → Expression

  pub data Expressions : Type 0 where
    nil : Expressions
    cons : Expression → Expressions → Expressions

  pub data MaybeExpression : Type 0 where
    null : MaybeExpression
    shared : Expression → MaybeExpression

  pub data Statement : Type 0 where
    block_statement : Statements → Statement
    field_declaration : Token → AmunType → MaybeExpression → Bool → Statement
    destructuring_declaraion : List Token → Types → Expression → Token → Bool → Statement
    const_declaration : Token → Expression → Statement
    prototype_declaration : FunctionPrototype → Statement
    intrinsic_prototype : Token → Bytes → List Parameter → AmunType → Bool → MaybeType → Statement
    function_declaration : FunctionPrototype → Statement → Statement
    operator_function_declaraion : Token → FunctionPrototype → Statement → Statement
    struct_declaration : StructType → Statement
    enum_declaration : Token → AmunType → Statement
    if_statement : ConditionalBlocks → Bool → Statement
    switch_statement : Token → Expression → SwitchCases → TokenKind → Bool → Bool → Statement
    for_range_statement :
        Token → Bytes → Expression → Expression → MaybeExpression → Statement → Statement
    for_each_statement : Token → Bytes → Bytes → Expression → Statement → Statement
    forever_statement : Token → Statement → Statement
    while_statement : Token → Expression → Statement → Statement
    return_statement : Token → MaybeExpression → Bool → Statement
    defer_statement : Expression → Statement
    break_statement : Token → Bool → ℤ → Statement
    continue_statement : Token → Bool → ℤ → Statement
    expression_statement : Expression → Statement

  pub data Statements : Type 0 where
    empty : Statements
    followed_by : Statement → Statements → Statements

  -- position, condition, body
  pub data ConditionalBlocks : Type 0 where
    no_blocks : ConditionalBlocks
    conditional_block : Token → Expression → Statement → ConditionalBlocks → ConditionalBlocks

  -- position, values, body
  pub data SwitchCases : Type 0 where
    no_cases : SwitchCases
    switch_case : Token → Expressions → Statement → SwitchCases → SwitchCases

-- `push_back` of each vector, and the sizes that the parser reads.
abbrev pub append_expression : Expressions → Expression → Expressions
append_expression Expressions.nil e = Expressions.cons e Expressions.nil
append_expression (Expressions.cons x xs) e = Expressions.cons x (append_expression xs e)

abbrev pub count_expressions : Expressions → ℕ
count_expressions Expressions.nil = 0
count_expressions (Expressions.cons x xs) = suc (count_expressions xs)

abbrev pub append_statement : Statements → Statement → Statements
append_statement empty e = followed_by e empty
append_statement (followed_by x xs) e = followed_by x (append_statement xs e)

abbrev pub append_block : ConditionalBlocks → Token → Expression → Statement → ConditionalBlocks
append_block no_blocks t c b = conditional_block t c b no_blocks
append_block (conditional_block u d e xs) t c b = conditional_block u d e (append_block xs t c b)

abbrev pub append_case : SwitchCases → Token → Expressions → Statement → SwitchCases
append_case no_cases t c b = switch_case t c b no_cases
append_case (switch_case u d e xs) t c b = switch_case u d e (append_case xs t c b)

abbrev pub append_type : Types → AmunType → Types
append_type Types.nil t = Types.cons t Types.nil
append_type (Types.cons u us) t = Types.cons u (append_type us t)

-- `get_ast_node_type() == AST_RETURN` of the last statement, false for an empty block.
abbrev pub is_return : Statement → Bool
is_return (return_statement _ _ _) = true
is_return _ = false

abbrev pub ends_with_return : Statements → Bool
ends_with_return empty = false
ends_with_return (followed_by s empty) = is_return s
ends_with_return (followed_by s (followed_by t ts)) = ends_with_return (followed_by t ts)
