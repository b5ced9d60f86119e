-- ===== src/AliasTable/Tests.antt =====
-- The laws of the table of names on its initial content.
use amun.Prelude.{◌≡◌, true}
use amun.Prelude.Text.{codes, equal}
use amun.AliasTable.{resolve_alias, contains, new}
use amun.AliasTable.Laws.{resolve_alias-contains}

resolve_alias-contains_example : contains (codes "real") (resolve_alias (codes "real") new).0 ≡ true
unfolding equal
resolve_alias-contains_example = resolve_alias-contains (codes "real") new (codes "real")
