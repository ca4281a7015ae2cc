-- ===== src/Utils/Inspection/Addresses.antt =====
-- The address in the text of an object, read back.
use ru_ble.Base.{
  ℕ, zero, suc, ◌^◌, ◌<◌, ◌≡◌, refl, ◌∙◌, subst, true, Option, some, [], ◌∷◌, ◌++◌, length, take,
  arith, take-append_length,
}
use ru_ble.Base.Texts.{Text, codes}
use ru_ble.Utils.Hexadecimal.{to_hex_addr, hex_string_prefix, pointer, hex_addr_of}
use ru_ble.Utils.Hexadecimal.Digits.{read_hex}
use ru_ble.Utils.Hexadecimal.Numbers.{hex_string_lem}
use ru_ble.Utils.Inspection.{basic_object_inspect_start}

abbrev pub drop : ℕ → Text → Text
drop zero t = t
drop (suc n) [] = []
drop (suc n) (c ∷ t) = drop n t

drop-append : (s t u : Text) → drop (length s) ((s ++ t) ++ u) ≡ t ++ u
drop-append [] t u = refl
drop-append (c ∷ s) t u = drop-append s t u

-- The sixteen digits behind `#<`, the name and `:0x`.
unfoldable pub address_in : Text → Text → Option ℕ
address_in name t = read_hex 0 (take 16 (drop 3 (drop (length name) (drop 2 t))))

address_in-hex :
    (name rest hex body : Text) (addr : ℕ)
    → hex ≡ hex_string_prefix ++ body
    → length body ≡ 16
    → read_hex 0 body ≡ some addr
    → address_in name ((codes "#<" ++ (name ++ (codes ":" ++ hex))) ++ rest) ≡ some addr
unfolding address_in
address_in-hex name rest hex body addr e n reads =
    let t : take 16 (body ++ rest) ≡ body =
      subst (λ k. take k (body ++ rest) ≡ body) n (take-append_length body rest) in
    rw (e, drop-append name (codes ":" ++ (hex_string_prefix ++ body)) rest, t, reads) refl

pub address_in-start :
    (name rest : Text) (addr : ℕ)
    → addr < 16 ^ 16
    → address_in name (basic_object_inspect_start name addr ++ rest) ≡ some addr
unfolding basic_object_inspect_start to_hex_addr hex_addr_of
address_in-start name rest addr h =
    let (body, x, n, reads, y, z) = hex_string_lem true 8 addr (pointer addr) (omega arith) h in
    address_in-hex name rest (to_hex_addr true addr) body addr (z ∙ x) n reads
