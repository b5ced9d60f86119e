-- ===== src/Mangle/Tests.antt =====
-- The laws of the mangled names on concrete types.
use amun.Prelude.{◌≡◌, refl, []}
use amun.Token.{token_plus}
use amun.Types.{AmunType, Types, nil, cons, integer_1, integer_16}
use amun.Mangle.{mangle_type, mangle_types}
use amun.Mangle.Laws.{Plain, AllPlain, mangle_types-injective, mangle_operator_function-injective}
use amun.Mangle.Tuples.{mangle_types-tuple}

abbrev vector : Types
vector =
    cons (AmunType.static_array (AmunType.pointer (AmunType.number integer_16)) 12)
      (cons (AmunType.number integer_1) nil)

vector-AllPlain : AllPlain vector
vector-AllPlain =
    AllPlain.cons (Plain.static_array (Plain.pointer (Plain.number integer_16)) 12)
      (AllPlain.cons (Plain.number integer_1) AllPlain.nil)

mangle_types-injective_example : vector ≡ vector
mangle_types-injective_example = mangle_types-injective vector-AllPlain vector-AllPlain refl

mangle_operator_function-injective_example : vector ≡ vector
mangle_operator_function-injective_example =
    mangle_operator_function-injective token_plus vector-AllPlain vector-AllPlain refl

abbrev one : Types
one = cons (AmunType.number integer_1) nil

mangle_types-tuple_example :
    mangle_types (cons (AmunType.tuple [] one) one)
    ≡ mangle_type (AmunType.tuple [] (cons (AmunType.number integer_1) one))
mangle_types-tuple_example = mangle_types-tuple [] [] one one
