-- ===== src/Schemas/Named.antt =====
-- analysis.cpp: what `read_class_binding`, `read_enum_binding` and `analyze_schemas` return.
use hardware_assisted_game_s.Base.{
  ℕ, zero, suc, ◌+◌, ◌≤◌, ◌<◌, ◌≡◌, inl, inr, Bool, true, false, not, ◌&&◌, Option, Bool-cases,
  Bytes, is_empty, length, ltb, ◌==◌, if◌then◌else◌, arith,
}
use hardware_assisted_game_s.Base.Maps.{bytes_key}
use Prim.Native.String.{String}
use hardware_assisted_game_s.Config.{LayoutConfig}
use hardware_assisted_game_s.Process.{
  Outcome-cases, Process, M, Ensures, >>=-Ensures, >>=-Ensures_any,
}
use hardware_assisted_game_s.Schemas.Blocks.{offset_of, read_field}
use hardware_assisted_game_s.Schemas.Bindings.{
  ClassInfo, EnumInfo, collect, is_count16, long_text, short_text, items_at, class_field,
  class_metadata, named_class, read_class_binding, parent_of, enum_member, named_enum,
  read_enum_binding,
}

-- A class has a name, and no more fields and metadata than a count of 16 bits can say.
pub record IsClass (c : ClassInfo) : Type 0 where
  named : is_empty c.name ≡ false
  few_fields : length c.fields < 32767
  few_metadata : length c.metadata < 32767

pub record IsEnum (e : EnumInfo) : Type 0 where
  named : is_empty e.name ≡ false
  few_members : length e.members ≤ e.size

length-collect :
    {W A : Type 0} (item : ℕ → M W (Option A)) (n i : ℕ) (w : W) → length (collect item n i w).0 ≤ n
unfolding collect
length-collect item zero i w = omega arith
length-collect item (suc n) i w = elim (Outcome-cases (item i w).0) [
  | inr (e, bad) ↦ ground (arith, length-collect item n (i + 1) (item i w).1)
  | inl (r, good) ↦ ground (arith, length-collect item n (i + 1) (item i w).1)
]

count16_bound :
    (n : ℕ) (there : Bool) (m : ℕ) → m ≤ (if there && is_count16 n then n else 0) → m < 32767
unfolding is_count16
count16_bound n there m few = ground arith

few_members_lem : (n : ℕ) (there : Bool) (m : ℕ) → m ≤ (if there && ltb 0 n then n else 0) → m ≤ n
few_members_lem n there m few = ground arith

module _ (p : Process) (l : LayoutConfig) where
  open p use {World}

  items_at-few :
      {A : Type 0} (there : Bool) (key : String) (item : ℕ → M World (Option A)) (base n : ℕ)
      (w : World)
      → Ensures
          (λ xs. length xs ≤ (if there then n else 0))
          (items_at p l there key item base n w).0
  items_at-few false key item base n w = omega arith
  items_at-few true key item base n w =
      >>=-Ensures_any _ (offset_of p l key) _ w λ stride w1. length-collect _ n 0 w1

  named_class-IsClass :
      (ptr : ℕ) (name module_name : Bytes) (w : World)
      → is_empty name ≡ false
      → Ensures IsClass (named_class p l ptr name module_name w).0
  unfolding named_class
  named_class-IsClass ptr name module_name w named =
      >>=-Ensures_any _ (read_field p l 8 ptr "class.base_classes") _ w λ bases w1.
        >>=-Ensures_any _ (parent_of p l bases) _ w1 λ parent w2.
          >>=-Ensures_any _ (read_field p l 2 ptr "class.field_count") _ w2 λ field_count w3.
            >>=-Ensures_any _ (read_field p l 8 ptr "class.fields") _ w3 λ fields w4.
              >>=-Ensures _ IsClass
                (items_at p l (not (fields == 0) && is_count16 field_count) "field.stride"
                  (class_field p l) fields field_count)
                _ w4
                (items_at-few (not (fields == 0) && is_count16 field_count) "field.stride"
                  (class_field p l) fields field_count w4)
                λ fs w5 few.
                  >>=-Ensures_any _ (read_field p l 2 ptr "class.metadata_count") _ w5
                    λ metadata_count w6.
                      >>=-Ensures_any _ (read_field p l 8 ptr "class.metadata") _ w6 λ metadata w7.
                        >>=-Ensures _ IsClass
                          (items_at p l (not (metadata == 0) && is_count16 metadata_count)
                            "metadata.stride" (class_metadata p l) metadata metadata_count)
                          _ w7
                          (items_at-few (not (metadata == 0) && is_count16 metadata_count)
                            "metadata.stride" (class_metadata p l) metadata metadata_count w7)
                          λ ms w8 less. record {
                            named = named;
                            few_fields =
                                count16_bound field_count (not (fields == 0)) (length fs) few;
                            few_metadata =
                                count16_bound metadata_count (not (metadata == 0)) (length ms) less;
                          }

  -- If `read_class_binding` returns, the class has a name, and fewer than 32767 fields and pieces of
  -- metadata each, whatever the memory of the process holds.
  pub read_class_binding-IsClass :
      (ptr : ℕ) (w : World) → Ensures IsClass (read_class_binding p l ptr w).0
  unfolding read_class_binding
  read_class_binding-IsClass ptr w =
      >>=-Ensures_any _ (read_field p l 8 ptr "class.name") _ w λ name_ptr w1.
        >>=-Ensures_any _ (read_field p l 8 ptr "class.module_name") _ w1 λ module_ptr w2.
          >>=-Ensures_any _ (long_text p l name_ptr) _ w2 λ name w3.
            >>=-Ensures_any _ (short_text p l module_ptr) _ w3 λ module_name w4.
              elim (Bool-cases (is_empty name)) [
                | inl empty ↦ rw empty tt
                | inr named ↦ rw named (named_class-IsClass ptr name module_name w4 named)
              ]

  -- If `read_enum_binding` returns, the enum has a name, and no more members than its size says.
  pub read_enum_binding-IsEnum :
      (ptr : ℕ) (w : World) → Ensures IsEnum (read_enum_binding p l ptr w).0
  unfolding read_enum_binding named_enum
  read_enum_binding-IsEnum ptr w =
      >>=-Ensures_any _ (read_field p l 8 ptr "enum.name") _ w λ name_ptr w1.
        >>=-Ensures_any _ (long_text p l name_ptr) _ w1 λ name w2.
          elim (Bool-cases (is_empty name)) [
            | inl empty ↦ rw empty tt
            | inr named ↦ rw named (
                >>=-Ensures_any _ (read_field p l 1 ptr "enum.alignment") _ w2 λ alignment w3.
                  >>=-Ensures_any _ (read_field p l 2 ptr "enum.enumerator_count") _ w3 λ size w4.
                    >>=-Ensures_any _ (read_field p l 8 ptr "enum.enumerators") _ w4
                      λ enumerators w5.
                        >>=-Ensures _ IsEnum
                          (items_at p l (not (enumerators == 0) && ltb 0 size) "enumerator.stride"
                            (enum_member p l) enumerators size)
                          _ w5
                          (items_at-few (not (enumerators == 0) && ltb 0 size) "enumerator.stride"
                            (enum_member p l) enumerators size w5)
                          λ ms w6 few. record {
                            named = named;
                            few_members =
                                few_members_lem size (not (enumerators == 0)) (length ms) few;
                          })
          ]
