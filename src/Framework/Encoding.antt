-- ===== src/Framework/Encoding.antt =====
-- distbench-py/distbench/encoding: json_format.py and msgpack_format.py, between typed objects and
-- the data of a format. What `json` and `msgpack` do is a parameter; the two `_deserialize_obj` are
-- the same code.
pub mod RoundTrip
use distributed_algo.Prelude.{
  ℕ, String, Bool, true, false, Option, none, some, ◌==◌, eq_string, if◌then◌else◌, Result, ok,
  raises, type_error, ◌>>=◌,
}
use distributed_algo.Framework.Messages.{Bytes}

-- Python values: `None`, numbers, strings and bytes are `prim`; an instance is one of a dataclass.
mutual
  pub data Py : Type 0 where
    prim : String → Py
    sequence : (is_tuple : Bool) → Items → Py
    dictionary : Entries → Py
    instance_of : (name : String) → Entries → Py

  pub data Items : Type 0 where
    nil : Items
    cons : Py → Items → Items

  pub data Entries : Type 0 where
    no_entry : Entries
    entry : String → Py → Entries → Entries

-- The types that `_deserialize_obj` tells apart: lists and tuples with and without the type of their
-- items, dataclasses, and generic dataclasses with their argument; all others are `plain`. A field
-- has its type and its default.
mutual
  pub data Ty : Type 0 where
    plain : Ty
    any_sequence : (is_tuple : Bool) → Ty
    sequence_of : (is_tuple : Bool) → Ty → Ty
    dataclass : (name : String) → Fields → Ty
    generic : (name : String) → (argument : Ty) → Fields → Ty

  pub data Fields : Type 0 where
    no_field : Fields
    field : String → Ty → (default : Option Py) → Fields → Fields

-- `obj_data[field_name]`, if it is there
unfoldable pub find : Entries → String → Option Py
find no_entry name = none
find (entry n v es) name = let later = find es name in if n == name then some v else later

unfoldable pub each_item : (Py → Result Py) → Items → Result Items
each_item f nil = ok nil
each_item f (cons v vs) = do w ← f v; ws ← each_item f vs; ok (cons w ws)

-- the value of a field: what is read from the data, or else its default
unfoldable pub field_value : (Py → Result Py) → Option Py → Option Py → Result Py
field_value f (some v) default = f v
field_value f none (some d) = ok d
field_value f none none = raises type_error

unfoldable pub make_sequence : Bool → Result Items → Result Py
make_sequence is_tuple items = do vs ← items; ok (sequence is_tuple vs)

unfoldable pub make_instance : String → Result Entries → Result Py
make_instance name values = do es ← values; ok (instance_of name es)

unfoldable mutual
  unfolding find each_item field_value make_sequence make_instance

  -- `_deserialize_obj(obj_data, cls)`
  pub deserialize : Ty → Py → Result Py
  deserialize plain v = ok v
  deserialize (any_sequence is_tuple) v = ok v
  deserialize (sequence_of is_tuple item) (sequence t vs) =
      make_sequence is_tuple (each_item (deserialize item) vs)
  deserialize (sequence_of is_tuple item) v = ok v
  deserialize (dataclass name fields) (dictionary es) = make_instance name (read_fields fields es)
  deserialize (dataclass name fields) v = ok v
  deserialize (generic name argument fields) (dictionary es) =
      make_instance name (read_generic (deserialize argument) fields es)
  deserialize (generic name argument fields) v = ok v

  -- the loop over the fields of a dataclass
  pub read_fields : Fields → Entries → Result Entries
  read_fields no_field es = ok no_entry
  read_fields (field name ty default fields) es = do
    v ← field_value (deserialize ty) (find es name) default
    later ← read_fields fields es
    ok (entry name v later)

  -- the same for a generic dataclass, whose field `value` has the type of the argument
  pub read_generic : (Py → Result Py) → Fields → Entries → Result Entries
  read_generic f no_field es = ok no_entry
  read_generic f (field name ty default fields) es = do
    v ←
        (if name == "value"
          then field_value f (find es name) default
          else field_value (deserialize ty) (find es name) default)
    later ← read_generic f fields es
    ok (entry name v later)

-- `asdict`: instances become dictionaries, at any depth
unfoldable mutual
  pub asdict : Py → Py
  asdict (prim t) = prim t
  asdict (sequence is_tuple vs) = sequence is_tuple (asdict_items vs)
  asdict (dictionary es) = dictionary (asdict_entries es)
  asdict (instance_of name es) = dictionary (asdict_entries es)

  pub asdict_items : Items → Items
  asdict_items nil = nil
  asdict_items (cons v vs) = cons (asdict v) (asdict_items vs)

  pub asdict_entries : Entries → Entries
  asdict_entries no_entry = no_entry
  asdict_entries (entry n v es) = entry n (asdict v) (asdict_entries es)

-- `packb` or `dumps`, and `unpackb` or `loads`
pub record Codec : Type 0 where
  pub pack : Py → Result Bytes
  pub unpack : Bytes → Result Py

-- `serialize` takes a dataclass apart, and packs any other value as it is
unfoldable pub serialize : Codec → Py → Result Bytes
unfolding asdict
serialize codec (instance_of name es) = codec.pack (asdict (instance_of name es))
serialize codec v = codec.pack v

unfoldable pub deserialize_bytes : Codec → Bytes → Ty → Result Py
unfolding deserialize
deserialize_bytes codec bytes ty = do v ← codec.unpack bytes; deserialize ty v
