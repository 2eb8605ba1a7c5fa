-- ===== src/Framework/Encoding/RoundTrip.antt =====
-- distbench-py/distbench/encoding: an object that has its type is read back from what is written.
use distributed_algo.Prelude.{
  String, Bool, true, false, Option, some, ◌≡◌, refl, ap, arith, ◌==◌, eq_string, if◌then◌else◌,
  Bool-cases, inl, inr, Result, ok, ◌>>=◌,
}
use distributed_algo.Framework.Messages.{Bytes}
use distributed_algo.Framework.Encoding.{
  Py, prim, sequence, dictionary, instance_of, Items, nil, cons, Entries, no_entry, entry, Ty,
  plain, any_sequence, sequence_of, dataclass, generic, Fields, no_field, field, find, each_item,
  field_value, make_sequence, make_instance, deserialize, read_fields, read_generic, asdict,
  asdict_items, asdict_entries, Codec, serialize, deserialize_bytes,
}

-- A format has no tuples: they come back as lists.
unfoldable mutual
  pub as_lists : Py → Py
  as_lists (prim t) = prim t
  as_lists (sequence is_tuple vs) = sequence false (as_lists_items vs)
  as_lists (dictionary es) = dictionary (as_lists_entries es)
  as_lists (instance_of name es) = instance_of name (as_lists_entries es)

  pub as_lists_items : Items → Items
  as_lists_items nil = nil
  as_lists_items (cons v vs) = cons (as_lists v) (as_lists_items vs)

  pub as_lists_entries : Entries → Entries
  as_lists_entries no_entry = no_entry
  as_lists_entries (entry n v es) = entry n (as_lists v) (as_lists_entries es)

-- data without instances and tuples
abbrev mutual
  pub IsData : Py → Type 0
  IsData (prim t) = Unit
  IsData (sequence true vs) = ⊥
  IsData (sequence false vs) = EachData vs
  IsData (dictionary es) = EntriesData es
  IsData (instance_of name es) = ⊥

  pub EachData : Items → Type 0
  EachData nil = Unit
  EachData (cons v vs) = IsData v × EachData vs

  pub EntriesData : Entries → Type 0
  EntriesData no_entry = Unit
  EntriesData (entry n v es) = IsData v × EntriesData es

abbrev pub EachItem : (Py → Type 0) → Items → Type 0
EachItem P nil = Unit
EachItem P (cons v vs) = P v × EachItem P vs

-- An object has a type: where the type says nothing, it is data; a sequence is of the right kind, with
-- items of the type; an instance has the fields of its class, in order, each found by its name.
abbrev mutual
  pub HasType : Ty → Py → Type 0
  HasType plain v = IsData v
  HasType (any_sequence is_tuple) v = IsData v
  HasType (sequence_of is_tuple item) (prim s) = ⊥
  HasType (sequence_of is_tuple item) (sequence t vs) = (t ≡ is_tuple) × EachItem (HasType item) vs
  HasType (sequence_of is_tuple item) (dictionary es) = ⊥
  HasType (sequence_of is_tuple item) (instance_of m es) = ⊥
  HasType (dataclass name fields) (prim s) = ⊥
  HasType (dataclass name fields) (sequence t vs) = ⊥
  HasType (dataclass name fields) (dictionary es) = ⊥
  HasType (dataclass name fields) (instance_of m es) = (m ≡ name) × HasFields fields es es
  HasType (generic name argument fields) (prim s) = ⊥
  HasType (generic name argument fields) (sequence t vs) = ⊥
  HasType (generic name argument fields) (dictionary es) = ⊥
  HasType (generic name argument fields) (instance_of m es) =
      (m ≡ name) × HasGeneric (HasType argument) fields es es

  pub HasFields : Fields → Entries → (whole : Entries) → Type 0
  HasFields no_field no_entry whole = Unit
  HasFields no_field (entry n v es) whole = ⊥
  HasFields (field name ty default fields) no_entry whole = ⊥
  HasFields (field name ty default fields) (entry n v es) whole =
      (n ≡ name) × (find whole name ≡ some v) × HasType ty v × HasFields fields es whole

  pub HasGeneric : (Py → Type 0) → Fields → Entries → (whole : Entries) → Type 0
  HasGeneric P no_field no_entry whole = Unit
  HasGeneric P no_field (entry n v es) whole = ⊥
  HasGeneric P (field name ty default fields) no_entry whole = ⊥
  HasGeneric P (field name ty default fields) (entry n v es) whole =
      (n ≡ name)
      × (find whole name ≡ some v)
      × (if name == "value" then P v else HasType ty v)
      × HasGeneric P fields es whole

abbrev wire : Py → Py
wire v = as_lists (asdict v)

abbrev wire_entries : Entries → Entries
wire_entries es = as_lists_entries (asdict_entries es)

mutual
  unfolding as_lists asdict

  data_wire : (v : Py) → IsData v → wire v ≡ v
  data_wire (prim t) h = refl
  data_wire (sequence true vs) h = absurd h
  data_wire (sequence false vs) h = ap (λ vs. sequence false vs) (data_wire_items vs h)
  data_wire (dictionary es) h = ap (λ es. dictionary es) (data_wire_entries es h)
  data_wire (instance_of name es) h = absurd h

  data_wire_items : (vs : Items) → EachData vs → as_lists_items (asdict_items vs) ≡ vs
  data_wire_items nil h = refl
  data_wire_items (cons v vs) h = rw (data_wire v h.0, data_wire_items vs h.1) refl

  data_wire_entries : (es : Entries) → EntriesData es → wire_entries es ≡ es
  data_wire_entries no_entry h = refl
  data_wire_entries (entry n v es) h = rw (data_wire v h.0, data_wire_entries es h.1) refl

some_same : {A : Type 0} (a b : A) → some a ≡ some b → a ≡ b
some_same a b e = cc

find-wire :
    (es : Entries) (name : String) (v : Py)
    → find es name ≡ some v
    → find (wire_entries es) name ≡ some (wire v)
unfolding find as_lists asdict
find-wire no_entry name v h = ground arith
find-wire (entry n w es) name v h = elim (Bool-cases (n == name)) [
  | inl same ↦ rw same (ap (λ (x : Py). some (wire x)) (some_same w v (rw same at h)))
  | inr other ↦ rw other (find-wire es name v (rw other at h))
]

each_item-wire :
    (f : Py → Result Py) (P : Py → Type 0) (vs : Items)
    → ((v : Py) → P v → f (wire v) ≡ ok v)
    → EachItem P vs
    → each_item f (as_lists_items (asdict_items vs)) ≡ ok vs
unfolding each_item as_lists asdict
each_item-wire f P nil reads h = refl
each_item-wire f P (cons v vs) reads h = rw (reads v h.0, each_item-wire f P vs reads h.1) refl

made_sequence :
    (is_tuple t : Bool) (vs : Items) (r : Result Items)
    → t ≡ is_tuple
    → r ≡ ok vs
    → make_sequence is_tuple r ≡ ok (sequence t vs)
unfolding make_sequence
made_sequence is_tuple t vs r same e = rw (e, same) refl

made_instance :
    (name m : String) (es : Entries) (r : Result Entries)
    → m ≡ name
    → r ≡ ok es
    → make_instance name r ≡ ok (instance_of m es)
unfolding make_instance
made_instance name m es r same e = rw (e, same) refl

found_value :
    (f : Py → Result Py) (es : Entries) (name : String) (v : Py) (default : Option Py)
    → find es name ≡ some (wire v)
    → f (wire v) ≡ ok v
    → field_value f (find es name) default ≡ ok v
unfolding field_value
found_value f es name v default found reads = rw found reads

read_first :
    (name n : String) (v : Py) (es : Entries) (r : Result Py) (later : Result Entries)
    → n ≡ name
    → r ≡ ok v
    → later ≡ ok es
    → (do w ← r; ws ← later; ok (entry name w ws)) ≡ ok (entry n v es)
read_first name n v es r later same e k = rw (e, k, same) refl

either_reads :
    (b : Bool) (P Q : Py → Type 0) (v : Py) (r s : Result Py)
    → (if b then P v else Q v)
    → (P v → r ≡ ok v)
    → (Q v → s ≡ ok v)
    → (if b then r else s) ≡ ok v
either_reads true P Q v r s h f g = f h
either_reads false P Q v r s h f g = g h

mutual
  unfolding deserialize as_lists asdict

  deserialize-wire : (ty : Ty) (v : Py) → HasType ty v → deserialize ty (wire v) ≡ ok v
  deserialize-wire plain v h = ap ok (data_wire v h)
  deserialize-wire (any_sequence is_tuple) v h = ap ok (data_wire v h)
  deserialize-wire (sequence_of is_tuple item) (prim s) h = absurd h
  deserialize-wire (sequence_of is_tuple item) (dictionary es) h = absurd h
  deserialize-wire (sequence_of is_tuple item) (instance_of m es) h = absurd h
  deserialize-wire (sequence_of is_tuple item) (sequence t vs) (same, h) =
      made_sequence is_tuple t vs _ same
        (each_item-wire (deserialize item) (HasType item) vs (deserialize-wire item) h)
  deserialize-wire (dataclass name fields) (prim s) h = absurd h
  deserialize-wire (dataclass name fields) (sequence t vs) h = absurd h
  deserialize-wire (dataclass name fields) (dictionary es) h = absurd h
  deserialize-wire (dataclass name fields) (instance_of m es) (same, h) =
      made_instance name m es _ same (read_fields-wire fields es es h)
  deserialize-wire (generic name argument fields) (prim s) h = absurd h
  deserialize-wire (generic name argument fields) (sequence t vs) h = absurd h
  deserialize-wire (generic name argument fields) (dictionary es) h = absurd h
  deserialize-wire (generic name argument fields) (instance_of m es) (same, h) =
      made_instance name m es _ same
        (read_generic-wire argument fields es es (deserialize-wire argument) h)

  read_fields-wire :
      (fields : Fields) (es whole : Entries)
      → HasFields fields es whole
      → read_fields fields (wire_entries whole) ≡ ok es
  read_fields-wire no_field no_entry whole h = refl
  read_fields-wire no_field (entry n v es) whole h = absurd h
  read_fields-wire (field name ty default fields) no_entry whole h = absurd h
  read_fields-wire (field name ty default fields) (entry n v es) whole (same, at, typed, later) =
      read_first name n v es _ _ same
        (found_value (deserialize ty) (wire_entries whole) name v default
          (find-wire whole name v at) (deserialize-wire ty v typed))
        (read_fields-wire fields es whole later)

  read_generic-wire :
      (argument : Ty) (fields : Fields) (es whole : Entries)
      → ((v : Py) → HasType argument v → deserialize argument (wire v) ≡ ok v)
      → HasGeneric (HasType argument) fields es whole
      → read_generic (deserialize argument) fields (wire_entries whole) ≡ ok es
  read_generic-wire argument no_field no_entry whole reads h = refl
  read_generic-wire argument no_field (entry n v es) whole reads h = absurd h
  read_generic-wire argument (field name ty default fields) no_entry whole reads h = absurd h
  read_generic-wire argument (field name ty default fields) (entry n v es) whole reads
        (same, at, typed, later) =
      let found = find-wire whole name v at in
      read_first name n v es _ _ same
        (either_reads (name == "value") (HasType argument) (HasType ty) v _ _ typed
          (λ p.
            found_value (deserialize argument) (wire_entries whole) name v default found
              (reads v p))
          (λ p.
            found_value (deserialize ty) (wire_entries whole) name v default found
              (deserialize-wire ty v p)))
        (read_generic-wire argument fields es whole reads later)

-- An instance that has its type is read back, as it was, from the bytes that are written of it, by the
-- type: with its nested instances, its lists and tuples, and the argument of a generic class; if the
-- format packs what is written, and unpacks it with lists for tuples.
pub deserialize_bytes-serialize :
    (codec : Codec) (ty : Ty) (name : String) (es : Entries) (bytes : Bytes)
    → HasType ty (instance_of name es)
    → codec.pack (asdict (instance_of name es)) ≡ ok bytes
    → codec.unpack bytes ≡ ok (as_lists (asdict (instance_of name es)))
    → (do b ← serialize codec (instance_of name es); deserialize_bytes codec b ty)
      ≡ ok (instance_of name es)
unfolding serialize deserialize_bytes
deserialize_bytes-serialize codec ty name es bytes typed packed unpacked =
    rw packed (rw unpacked (deserialize-wire ty (instance_of name es) typed))
