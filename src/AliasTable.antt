-- ===== src/AliasTable.antt =====
-- src/amun_alias_table.cpp and include/amun_primitives.hpp: the names of types. The table is a map from
-- names to pointers to types, which may be null.
pub mod Laws
mod Tests
use amun.Prelude.{ℕ, Bool, List, [], ◌∷◌, Option, none, some}
use amun.Prelude.Text.{Bytes, codes}
use amun.ScopedMap.{find, put}
use amun.ScopedMap
use amun.Types.{AmunType, MaybeType, null, shared, NumberKind}
use amun.Types.{
  integer_1, integer_8, integer_16, integer_32, integer_64, u_integer_8, u_integer_16, u_integer_32,
  u_integer_64, float_32, float_64,
}

abbrev pub Table : Type 0
Table = List (Bytes × MaybeType)

unfoldable pub define_alias : Bytes → MaybeType → Table → Table
define_alias alias type table = put alias type table

-- `type_alias_table[alias]` from what the table holds: a name that it does not hold is entered with a
-- null pointer.
abbrev pub entry_of : Bytes → Table → Option MaybeType → Table × MaybeType
entry_of alias table (some type) = (table, type)
entry_of alias table none = (put alias null table, null)

unfoldable pub resolve_alias : Bytes → Table → Table × MaybeType
resolve_alias alias table = entry_of alias table (find alias table)

unfoldable pub contains : Bytes → Table → Bool
contains alias table = ScopedMap.contains alias table

abbrev primitive : NumberKind → MaybeType
primitive kind = shared (AmunType.number kind)

-- The entries in the order of the code.
abbrev pub primitives : Table
primitives =
    (codes "int1", primitive integer_1)
    ∷ (codes "int8", primitive integer_8)
    ∷ (codes "int16", primitive integer_16)
    ∷ (codes "int32", primitive integer_32)
    ∷ (codes "int64", primitive integer_64)
    ∷ (codes "char", primitive integer_8)
    ∷ (codes "uchar", primitive u_integer_8)
    ∷ (codes "uint8", primitive u_integer_8)
    ∷ (codes "uint16", primitive u_integer_16)
    ∷ (codes "uint32", primitive u_integer_32)
    ∷ (codes "uint64", primitive u_integer_64)
    ∷ (codes "float32", primitive float_32)
    ∷ (codes "float64", primitive float_64)
    ∷ (codes "void", shared AmunType.void)
    ∷ []

abbrev pub assign_all : Table → Table → Table
assign_all [] table = table
assign_all ((alias, type) ∷ entries) table = assign_all entries (put alias type table)

unfoldable pub config_type_alias_table : Table → Table
config_type_alias_table table = assign_all primitives table

-- The constructor.
unfoldable pub new : Table
unfolding config_type_alias_table
new = config_type_alias_table []
