-- ===== src/Ident/Tests.antt =====
-- The theorems on id.go at concrete identifiers.
use go_rdx.Prelude.{◌<◌, ◌≡◌, ◌↔◌, refl, arith, true, false, none, codes}
use go_rdx.Cmp.{less, eq, flip}
use go_rdx.Ident.{RdxId, ron_string, new_id, compare, base, rev, is_live, recovered}
use go_rdx.Ident.Digits.{ron64, ron64_rev}
use go_rdx.Ident.Texts.{new_id-ron_string}
use go_rdx.Ident.Order.{compare_linear}
use go_rdx.Ident.Revision.{recovered_lem}

abbrev at_0x40 : RdxId
at_0x40 = record { src = 11; seq = 0x40 }

abbrev at_0x41 : RdxId
at_0x41 = record { src = 11; seq = 0x41 }

abbrev at_0x80 : RdxId
at_0x80 = record { src = 11; seq = 0x80 }

text_of_at_0x41 : ron_string at_0x41 ≡ codes "B-11"
unfolding ron_string ron64
text_of_at_0x41 = refl

comma_stops : ron64_rev b',' ≡ 0xff
unfolding ron64_rev
comma_stops = refl

live_0x40 : is_live at_0x40 ≡ true
unfolding is_live
live_0x40 = refl

dead_0x41 : is_live at_0x41 ≡ false
unfolding is_live
dead_0x41 = refl

new_id-ron_string_example : new_id (ron_string at_0x41) ≡ record { id = at_0x41; error = none }
new_id-ron_string_example = new_id-ron_string at_0x41 (omega arith) (omega arith)

compare_linear_example :
    (compare at_0x41 at_0x40 ≡ flip (compare at_0x40 at_0x41))
    × ((compare at_0x40 at_0x41 ≡ eq) ↔ (base at_0x40 ≡ base at_0x41))
    × (compare at_0x40 at_0x41 ≡ less
        → compare at_0x41 at_0x80 ≡ less
        → compare at_0x40 at_0x80 ≡ less)
compare_linear_example = compare_linear at_0x40 at_0x41 at_0x80

recovered_lem_example :
    (is_live (recovered at_0x41) ≡ true)
    × ((base (recovered at_0x41) ≡ base at_0x41) ↔ (rev at_0x41 < 63))
recovered_lem_example = recovered_lem at_0x41 (omega arith) dead_0x41
