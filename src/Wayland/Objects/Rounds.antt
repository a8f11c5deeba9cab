-- ===== src/Wayland/Objects/Rounds.antt =====
-- The operations of the registry end.
use Prim.Native.Nat.{bit_and}
use cuts.Base.{
  ℕ, zero, suc, ◌+◌, ◌/◌, ◌%◌, false, Option, none, some, List, [], ◌∷◌, ltb, ◌==◌, Ends, faults,
  aborts, >>=-Ends, if-Ends, option-Ends, require-Ends,
}
use cuts.Base.Bytes.{Bytes}
use cuts.Util.Map
use cuts.Util.Map.{Map, Pair}
use cuts.Util.Bitmap
use cuts.Util.Bitmap.{Bitmap}
use cuts.Wayland.Wire.Rounds.{load-Ends}
use cuts.Wayland.Objects.{Registry, Object, object_get, object_add, object_del, take_id, give_id}

pub object_get-Ends : (reg : Registry) (id : ℕ) → Ends (object_get reg id)
unfolding object_get Map.get
object_get-Ends reg id = >>=-Ends (require-Ends _) λ _. Ends.returns

set_value-Ends :
    (pair : Pair Object) (value : Option Object) (size : ℕ) → Ends (Map.set_value pair value size)
unfolding Map.set_value
set_value-Ends pair none size = if-Ends (ltb 0 size) faults Ends.returns
set_value-Ends pair (some v) size = if-Ends (ltb 0 size) Ends.returns Ends.returns

abbrev empty_pair : ℕ → Pair Object
empty_pair key = record { copied = false; key = key; value = none }

set_chain-Ends :
    (chain : List (Pair Object)) (key : ℕ) (value : Option Object) (size : ℕ)
    → Ends (Map.set_chain chain key value size)
unfolding Map.set_chain
set_chain-Ends [] key value size =
    >>=-Ends (set_value-Ends (empty_pair key) value size) λ _. Ends.returns
set_chain-Ends (current ∷ rest) key value size =
    option-Ends current.value
      (>>=-Ends (set_value-Ends (record current { key = key }) value size) λ _. Ends.returns)
      λ _. >>=-Ends (set_value-Ends (empty_pair key) value size) λ _. Ends.returns

map_set-Ends :
    (m : Map Object) (key : ℕ) (value : Option Object) (size : ℕ) → Ends (Map.set m key value size)
unfolding Map.set
map_set-Ends m key value size =
    >>=-Ends (require-Ends (ltb 0 m.size))
      λ _. >>=-Ends (set_chain-Ends (m.pairs (key % m.size)) key value size) λ _. Ends.returns

bitmap_set-Ends : (bm : Bitmap) (n : ℕ) → Ends (Bitmap.set bm n)
unfolding Bitmap.set
bitmap_set-Ends bm n = if-Ends (ltb bm.size n) Ends.returns (
    >>=-Ends (load-Ends bm.bytes _)
      λ _. >>=-Ends (if-Ends (ltb _ bm.bytes.len) Ends.returns faults) λ _. Ends.returns)

bitmap_unset-Ends : (bm : Bitmap) (n : ℕ) → Ends (Bitmap.unset bm n)
unfolding Bitmap.unset
bitmap_unset-Ends bm n = if-Ends (ltb bm.size n) Ends.returns (
    >>=-Ends (load-Ends bm.bytes _)
      λ _. >>=-Ends (if-Ends (ltb _ bm.bytes.len) Ends.returns faults) λ _. Ends.returns)

scan-Ends : (n : ℕ) (bytes : Bytes) (i : ℕ) → Ends (Bitmap.scan n bytes i)
unfolding Bitmap.scan
scan-Ends zero bytes i = Ends.returns
scan-Ends (suc n) bytes i = >>=-Ends (load-Ends bytes i) λ byte.
    let rest = scan-Ends n bytes (i + 1) in
    if-Ends (bit_and byte 0xff == 0xff) rest
      (option-Ends (Bitmap.free_bit 8 byte 0) rest λ _. Ends.returns)

get_free-Ends : (bm : Bitmap) → Ends (Bitmap.get_free bm)
unfolding Bitmap.get_free
get_free-Ends bm = >>=-Ends (scan-Ends (bm.size / 8) bm.bytes 0) λ _. Ends.returns

take_id-Ends : (reg : Registry) (id : ℕ) → Ends (take_id reg id)
unfolding take_id
take_id-Ends reg id = if-Ends _ (>>=-Ends (bitmap_set-Ends _ _) λ _. Ends.returns) (
    if-Ends _ (>>=-Ends (get_free-Ends _) λ _. >>=-Ends (bitmap_set-Ends _ _) λ _. Ends.returns)
      (>>=-Ends (bitmap_set-Ends _ _) λ _. Ends.returns))

pub object_add-Ends :
    (reg : Registry) (id version : ℕ) (interface object_data : Option ℕ)
    → Ends (object_add reg id version interface object_data)
unfolding object_add
object_add-Ends reg id version interface object_data = >>=-Ends (object_get-Ends reg id) λ old.
    option-Ends old
      (option-Ends interface aborts λ iface.
        >>=-Ends (take_id-Ends reg id) λ _. >>=-Ends (map_set-Ends _ _ _ _) λ _. Ends.returns)
      λ _. Ends.returns

give_id-Ends : (reg : Registry) (id : ℕ) → Ends (give_id reg id)
unfolding give_id
give_id-Ends reg id =
    if-Ends _ (>>=-Ends (bitmap_unset-Ends _ _) λ _. Ends.returns)
      (>>=-Ends (bitmap_unset-Ends _ _) λ _. Ends.returns)

map_get-Ends : (m : Map Object) (key : ℕ) → Ends (Map.get m key)
unfolding Map.get
map_get-Ends m key = >>=-Ends (require-Ends (ltb 0 m.size)) λ _. Ends.returns

map_remove-Ends : (m : Map Object) (key : ℕ) → Ends (Map.remove m key)
unfolding Map.remove
map_remove-Ends m key = >>=-Ends (require-Ends (ltb 0 m.size)) λ _. Ends.returns

pub object_del-Ends : (reg : Registry) (id : ℕ) → Ends (object_del reg id)
unfolding object_del
object_del-Ends reg id = >>=-Ends (map_get-Ends reg.objects id) λ old.
    option-Ends old Ends.returns λ o. >>=-Ends (map_remove-Ends reg.objects id) λ (objects, _).
      >>=-Ends (give_id-Ends (record reg { objects = objects }) id) λ _. Ends.returns
