-- ===== src/Pydoc/Entries.antt =====
-- The entries of a block of the new style.
use aegir_sdr.Common.{
  Bool, true, false, Bool-cases, Option, none, some, inl, inr, List, [], ◌∷◌, ◌++◌, ◌≡◌, refl, sym,
  ap, ◌∙◌, subst, Text, codes, eq_text, eq_text_iff, contains, all, ==_iff,
}
use aegir_sdr.Doxyxml.Base.{Result, raises, returns}
use aegir_sdr.Doxyxml.Base.Lookup.{clash, eq_text-same}
use aegir_sdr.Doxyxml.Description.Breaks.{&&-left, &&-right}
use aegir_sdr.Pydoc.{
  Doc, Klass, ◌then_with◌, combine_descriptions, with_params, entry_name, make_entry, set_item,
  update, is_in, add_methods, make_class_entry, make_block2_entry,
}

-- What a dictionary has under a key.
pub get_item : List (Text × Text) → Text → Option Text
get_item [] n = none
get_item ((k, v) ∷ d) n = elim (eq_text k n) [ true ↦ some v | false ↦ get_item d n ]

get_item-set_same : (n v : Text) (d : List (Text × Text)) → get_item (set_item n v d) n ≡ some v
unfolding get_item set_item
get_item-set_same n v [] = rw (get_item, eq_text-same n) refl
get_item-set_same n v ((k, w) ∷ d) = elim (Bool-cases (eq_text k n)) [
  | inl e ↦ rw (e, set_item, get_item, e) refl
  | inr e ↦ rw (e, set_item, get_item, e) (get_item-set_same n v d)
]

get_item-set_other :
    (m n v : Text) (d : List (Text × Text))
    → eq_text m n ≡ false
    → get_item (set_item m v d) n ≡ get_item d n
unfolding get_item set_item
get_item-set_other m n v [] off = rw (get_item, off) refl
get_item-set_other m n v ((k, w) ∷ d) off = elim (Bool-cases (eq_text k m)) [
  | inl e ↦
      let away = subst (λ t. eq_text t n ≡ false) (sym ((eq_text_iff k m).0 e)) off in
      rw (e, set_item, get_item, away) refl
  | inr e ↦ elim (Bool-cases (eq_text k n)) [
    | inl at ↦ rw (e, set_item, get_item, at) refl
    | inr away ↦ rw (e, set_item, get_item, away) (get_item-set_other m n v d off)
  ]
]

-- The key of a method is not the name of its class.
member_key : (klass rest : Text) → eq_text (klass ++ (codes "::" ++ rest)) klass ≡ false
unfolding eq_text
member_key [] rest = refl
member_key (c ∷ klass) rest = rw ((==_iff c c).1 refl) (member_key klass rest)

abbrev pub is_returned : {A : Type 0} → Result A → Bool
is_returned (raises e) = false
is_returned (returns a) = true

-- The descriptions of a method can be read.
abbrev is_described : Doc → Bool
is_described f = is_returned (combine_descriptions f)

abbrev pub are_described : List Doc → Bool
are_described fs = all is_described fs

returned : {A : Type 0} (r : Result A) → is_returned r ≡ true → (a : A) × (r ≡ returns a)
returned (raises e) h = clash h
returned (returns a) h = (a, refl)

-- `make_entry` with a description, of what is no operator
make_entry-described :
    (obj : Doc) (name : Option Text) (description : Text) (params : List (Text × Text))
    → contains (entry_name obj name) (codes "operator ") ≡ false
    → make_entry obj name (some description) params
      ≡ returns ((entry_name obj name, with_params description params) ∷ [])
unfolding make_entry
make_entry-described obj name description params plain = rw (plain, make_entry) refl

-- What `make_entry` adds of a method leaves the entry of another name.
update-method :
    (f : Doc) (key n text : Text) (d : List (Text × Text))
    → eq_text key n ≡ false
    → combine_descriptions f ≡ returns text
    → (es : List (Text × Text)) × (make_entry f (some key) none [] ≡ returns es)
      × (get_item (update d es) n ≡ get_item d n)
unfolding make_entry entry_name update with_params
update-method f key n text d off described = elim (Bool-cases (contains key (codes "operator "))) [
  | inl operator ↦ ([], rw (operator, make_entry, entry_name) refl, refl)
  | inr plain ↦ (
    (key, text) ∷ [],
    rw (plain, make_entry, entry_name, described) refl,
    get_item-set_other key n text d off,
  )
]

add_methods-keeps :
    (klass : Text) (ignored : List Text) (fs : List Doc) (d : List (Text × Text))
    → are_described fs ≡ true
    → (e : List (Text × Text)) × (add_methods klass ignored fs d ≡ returns e)
      × (get_item e klass ≡ get_item d klass)
unfolding add_methods
add_methods-keeps klass ignored [] d described = (d, refl, refl)
add_methods-keeps klass ignored (f ∷ fs) d described = elim (Bool-cases (is_in f.name ignored)) [
  | inl skip ↦
      let (e, rest, kept) =
        add_methods-keeps klass ignored fs d
          (&&-right (is_described f) (are_described fs) described) in
      (e, rw (skip, add_methods) rest, kept)
  | inr take ↦
      let (text, one) =
        returned (combine_descriptions f) (&&-left (is_described f) (are_described fs) described) in
      let (es, entry, same) =
        update-method f (klass ++ (codes "::" ++ f.name)) klass text d (member_key klass f.name)
          one in
      let (e, rest, kept) =
        add_methods-keeps klass ignored fs (update d es)
          (&&-right (is_described f) (are_described fs) described) in
      (
        e,
        rw (take, add_methods)
            (ap (λ r. r then_with λ x. add_methods klass ignored fs (update d x)) entry ∙ rest),
        kept ∙ same,
      )
]

-- The entry of a class, with the entries of its methods behind it
make_class_entry-keeps :
    (k : Klass) (description : Text) (ignored : List Text) (params : List (Text × Text))
    (fs : List Doc)
    → k.doc.definition ≡ none
    → contains k.doc.name (codes "operator ") ≡ false
    → k.functions ≡ returns fs
    → are_described fs ≡ true
    → (e : List (Text × Text)) × (make_class_entry k (some description) ignored (some params)
        ≡ returns e)
      × (get_item e k.doc.name ≡ some (with_params description params))
unfolding make_class_entry entry_name update set_item get_item
make_class_entry-keeps k description ignored params fs undefined plain methods described =
    let docs = with_params description params in
    let named : entry_name k.doc none ≡ k.doc.name = rw (undefined, entry_name) refl in
    let own =
      make_entry-described k.doc none description params
        (ap (λ n. contains n (codes "operator ")) named ∙ plain)
      ∙ ap (λ n. returns ((n, docs) ∷ [])) named in
    let (e, rest, kept) =
      add_methods-keeps k.doc.name ignored fs ((k.doc.name, docs) ∷ []) described in
    (
      e,
      ap
            (λ r. r then_with λ x.
              k.functions then_with λ gs. add_methods k.doc.name ignored gs (update [] x))
            own
          ∙ ap
              (λ r. r then_with λ gs.
                add_methods k.doc.name ignored gs (update [] ((k.doc.name, docs) ∷ [])))
              methods
          ∙ rest,
      kept ∙ rw (eq_text-same k.doc.name, get_item) refl,
    )

-- The description that both entries of a block get
abbrev pub block2_description : Text → Text → Text
block2_description class_description make_description =
    class_description ++ (codes "\n\nConstructor Specific Documentation:\n\n" ++ make_description)

abbrev pub make_key : Text → Text
make_key name = name ++ codes "::make"

-- If the descriptions of a block, of its `make` and of its other functions can be read, and the block has no definition of
-- its own and is no operator, then `make_block2_entry` returns a dictionary in which the block and its
-- `make` have the same docstring: the description of the class, that of `make`, and the parameters
-- of `make`, whatever other functions the class has.
pub make_block2_entry-get_item :
    (k : Klass) (class_description make_description : Text) (make : Doc) (fs : List Doc)
    → k.doc.definition ≡ none
    → contains k.doc.name (codes "operator ") ≡ false
    → contains (make_key k.doc.name) (codes "operator ") ≡ false
    → combine_descriptions k.doc ≡ returns class_description
    → k.get_function (codes "make") ≡ returns make
    → combine_descriptions make ≡ returns make_description
    → k.functions ≡ returns fs
    → are_described fs ≡ true
    → (d : List (Text × Text)) × (make_block2_entry k ≡ returns d)
      × (get_item d k.doc.name
          ≡ some (with_params (block2_description class_description make_description) make.params))
      × (get_item d (make_key k.doc.name)
          ≡ some (with_params (block2_description class_description make_description) make.params))
unfolding make_block2_entry update entry_name
make_block2_entry-get_item k cd md make fs undefined plain plain_make class_says finds make_says
      methods described =
    let desc = block2_description cd md in
    let key = make_key k.doc.name in
    let docs = with_params desc make.params in
    let (e, built, own) =
      make_class_entry-keeps k desc (codes "make" ∷ []) make.params fs undefined plain methods
        described in
    let entry = make_entry-described make (some key) desc make.params plain_make in
    (
      set_item key docs e,
      rw (make_block2_entry, class_says, finds, make_says, built, entry) refl,
      get_item-set_other key k.doc.name docs e (member_key k.doc.name (codes "make")) ∙ own,
      get_item-set_same key docs e,
    )
