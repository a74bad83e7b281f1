-- ===== src/GeeGorm/Schema/Fields.antt =====
-- The fields of a parsed table.
use go_little_project.Base.{
  ℕ, ◌≡◌, refl, ◌≢◌, inl, inr, true, not, ◌&&◌, List, [], ◌∷◌, ◌++◌, some, GoString, lookup, insert,
  str_eq, str_beq_iff, if◌then◌else◌, arith, In, In-append_cases, All, ok, Bool-cases, All-append,
  subst, lookup-insert_self, map, lookup-insert, ap, ◌∙◌, sym,
}
use mathlib.Core.List.{map-append, append-nil, append_assoc}
use go_little_project.GeeGorm.Schema.{
  Dialect, StructField, Field, Schema, get_field, tag_of, add_field, parse_fields, parse, fields_of,
}

-- Every field is found by its name, and the names are those of the fields.
pub record IsTable (s : Schema) : Type 0 where
  pub found : (f : Field) → In f s.fields → get_field s f.name ≡ some f
  pub names : s.fields_name ≡ map (λ (f : Field). f.name) s.fields

-- No two fields of a Go struct have one name.
abbrev pub HasNew : GoString → List Field → Type 0
HasNew name fs = All (λ f. f.name ≢ name) fs

abbrev pub AreDistinct : List StructField → Type 0
AreDistinct [] = Unit
AreDistinct (f ∷ fs) = All (λ g. f.name ≢ g.name) fs × AreDistinct fs

fresh-at :
    (name : GoString) (fs : List Field) (g : Field) → HasNew name fs → In g fs → g.name ≢ name
fresh-at name [] g h i = absurd i
fresh-at name (f ∷ fs) g (ne, h) i = elim i [
  | inl e ↦ λ q. ne (ap (λ (x : Field). x.name) (sym e) ∙ q)
  | inr later ↦ fresh-at name fs g h later
]

add_field-IsTable :
    (f : Field) (s : Schema) → HasNew f.name s.fields → IsTable s → IsTable (add_field f s)
unfolding add_field get_field
add_field-IsTable f s fresh t = record {
  found = λ g i. elim (In-append_cases g s.fields (f ∷ []) i) [
    | inl old ↦ ground (
      arith,
      lookup-insert f.name g.name f s.fields_map,
      str_beq_iff f.name g.name,
      fresh-at f.name s.fields g fresh old,
      t.found g old,
    )
    | inr last ↦ elim last [
      | inl e ↦
          subst (λ (x : Field). lookup x.name (insert f.name f s.fields_map) ≡ some x) (sym e)
            (lookup-insert_self f.name f s.fields_map)
      | inr nowhere ↦ absurd nowhere
    ]
  ];
  names =
      ap (λ l. l ++ f.name ∷ []) t.names
      ∙ sym (map-append (λ (x : Field). x.name) s.fields (f ∷ []));
}

-- A field that is kept has a type in the database.
abbrev pub HasType : Dialect → StructField → Type 0
HasType d f =
    (not f.anonymous && f.exported) ≡ true → (t : GoString) × (d.data_type f.kind f.is_time ≡ ok t)

-- The names of the fields that are kept.
unfoldable pub kept_names : List StructField → List GoString
kept_names [] = []
kept_names (f ∷ fs) =
    let rest = kept_names fs in if not f.anonymous && f.exported then f.name ∷ rest else rest

-- What is fresh for a table and differs from `f` is fresh after `f` is added.
HasNew-add :
    (fs : List StructField) (f : Field) (l : List Field)
    → All (λ g. f.name ≢ g.name) fs
    → All (λ g. HasNew g.name l) fs
    → All (λ g. HasNew g.name (l ++ f ∷ [])) fs
HasNew-add [] f l ne h = tt
HasNew-add (g ∷ gs) f l (n, ne) (a, h) = (All-append _ l (f ∷ []) a (n, tt), HasNew-add gs f l ne h)

parse_fields-IsTable :
    (d : Dialect) (fs : List StructField) (s : Schema)
    → All (HasType d) fs
    → AreDistinct fs
    → All (λ g. HasNew g.name s.fields) fs
    → IsTable s
    → (s' : Schema) × (parse_fields d fs s ≡ ok s')
      × IsTable s'
      × (s'.fields_name ≡ s.fields_name ++ kept_names fs)
unfolding parse_fields kept_names add_field
parse_fields-IsTable d [] s typed apart fresh t = (s, refl, t, sym (append-nil s.fields_name))
parse_fields-IsTable d (f ∷ fs) s (has, typed) (ne, apart) (new, fresh) t =
    elim (Bool-cases (not f.anonymous && f.exported)) [
      | inl kept ↦
          let (ty, e) = has kept in
          let g : Field = record { name = f.name; type = ty; tag = tag_of f.tag } in
          let (s', done, table, names) =
            parse_fields-IsTable d fs (add_field g s) typed apart
              (HasNew-add fs g s.fields ne fresh) (add_field-IsTable g s new t) in
          (
            s',
            rw (parse_fields, kept, e) done,
            table,
            rw (kept_names, kept)
                (names ∙ append_assoc s.fields_name (f.name ∷ []) (kept_names fs)),
          )
      | inr dropped ↦
          let (s', done, table, names) = parse_fields-IsTable d fs s typed apart fresh t in
          (s', rw (parse_fields, dropped) done, table, rw (kept_names, dropped) names)
    ]

no_fields : (fs : List StructField) → All (λ g. HasNew g.name []) fs
no_fields [] = tt
no_fields (f ∷ fs) = (tt, no_fields fs)

-- A struct whose field names all differ, and whose kept fields all have a type in the database,
-- is parsed. The names of the table are those of the fields that are exported and not embedded, in
-- order, and `GetField` finds each field of the table by its name.
pub parse-IsTable :
    (d : Dialect) (type_id : ℕ) (name : GoString) (fs : List StructField)
    → All (HasType d) fs
    → AreDistinct fs
    → (s : Schema) × (parse d (record { type_id = type_id; shape = fields_of name fs }) ≡ ok s)
      × IsTable s
      × (s.fields_name ≡ kept_names fs)
unfolding parse
parse-IsTable d type_id name fs typed apart =
    parse_fields-IsTable d fs _ typed apart (no_fields fs)
      (record { found = λ f i. absurd i; names = refl })
