-- ===== src/Prelude/Table.antt =====
-- A Go map that is only read and written by key, as a function from keys.
use accounting.Prelude.{Option, if◌then◌else◌, none, some}
use accounting.Prelude.Text.{Text, text_eq}

abbrev pub Table : Type 0 → Type 0
Table V = Text → Option V

module _ {V : Type 0} where
  -- `m[k] = v`
  abbrev pub put : Text → V → Table V → Table V
  put k v m j = if text_eq k j then some v else m j

  -- `delete(m, k)`
  abbrev pub drop_key : Text → Table V → Table V
  drop_key k m j = if text_eq k j then none else m j

abbrev pub no_rows : {V : Type 0} → Table V
no_rows j = none
