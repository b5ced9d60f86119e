-- ===== src/Types/Equality.antt =====
-- src/amun_type.cpp: `is_types_equals` and `is_functions_types_equals`.
use amun.Prelude.{Bool, true, ◌&&◌, ◌==◌}
use amun.Prelude.Text.{equal}
use amun.Types.{
  AmunType, Types, FunctionType, function_type, cons, type_kind, type_kind_eq, number_kind_eq, size,
}
use amun.Types.Literal.{get_type_literal}

-- `each_equals` is the loop over the parameters, once their numbers agree. The last clause is the
-- comparison of the kinds.
unfoldable mutual
  pub is_types_equals : AmunType → AmunType → Bool
  is_types_equals (AmunType.number k) (AmunType.number l) = number_kind_eq k l
  is_types_equals (AmunType.pointer a) (AmunType.pointer b) = is_types_equals a b
  is_types_equals (AmunType.static_array a n) (AmunType.static_array b m) =
      n == m && is_types_equals a b
  is_types_equals (AmunType.static_vector a n) (AmunType.static_vector b m) =
      n == m && is_types_equals a b
  is_types_equals (AmunType.function f) (AmunType.function g) = is_functions_types_equals f g
  is_types_equals (AmunType.struct s) (AmunType.struct t) =
      equal (get_type_literal (AmunType.struct s)) (get_type_literal (AmunType.struct t))
  is_types_equals (AmunType.tuple n ts) (AmunType.tuple m us) =
      equal (get_type_literal (AmunType.tuple n ts)) (get_type_literal (AmunType.tuple m us))
  is_types_equals (AmunType.enum_element n a) (AmunType.enum_element m b) = equal n m
  is_types_equals (AmunType.generic_struct s ts) (AmunType.generic_struct t us) =
      equal (get_type_literal (AmunType.struct s)) (get_type_literal (AmunType.struct t))
      && (size ts == size us && each_equals ts us)
  is_types_equals a b = type_kind_eq (type_kind a) (type_kind b)

  pub is_functions_types_equals : FunctionType → FunctionType → Bool
  is_functions_types_equals (function_type _ ts a _ _ _ _ _ _) (function_type _ us b _ _ _ _ _ _) =
      size ts == size us && (each_equals ts us && is_types_equals a b)

  pub each_equals : Types → Types → Bool
  each_equals (cons a ts) (cons b us) = is_types_equals a b && each_equals ts us
  each_equals _ _ = true
