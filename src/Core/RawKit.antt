-- ===== src/Core/RawKit.antt =====
-- A codec for the examples whose texts are the raw keys themselves. It satisfies the laws that the
-- program relies on.
use vadum.Base.{
  ℕ, ◌≡◌, refl, sym, Bool, true, ◌&&◌, List, [], ◌∷◌, Option, none, some, arith, ltb, ◌==◌,
  if◌then◌else◌, length, All,
}
use vadum.Base.Text.{Text}
use vadum.Core.Kit.{Kit, KitLaws, IsByte, IsKey}

unfoldable pub bytes_are_low : List ℕ → Bool
bytes_are_low [] = true
bytes_are_low (b ∷ bs) = ltb b 256 && bytes_are_low bs

unfoldable pub raw : Text → Option (List ℕ)
raw t = if length t == 32 && bytes_are_low t then some t else none

abbrev pub raw_kit : Kit
raw_kit = record {
  address_encode = raw;
  address_decode = λ bs. bs;
  base58_encode = raw;
  base58_decode = λ bs. bs;
}

bytes_low : (bs : List ℕ) → bytes_are_low bs ≡ true → All IsByte bs
unfolding bytes_are_low
bytes_low [] h = tt
bytes_low (b ∷ bs) h = ground (arith, bytes_low bs)

low_bytes : (bs : List ℕ) → All IsByte bs → bytes_are_low bs ≡ true
unfolding bytes_are_low
low_bytes [] h = refl
low_bytes (b ∷ bs) h = let rest = low_bytes bs h.1 in let low = h.0 in ground arith

raw-IsKey : (t bs : List ℕ) → raw t ≡ some bs → (t ≡ bs) × IsKey bs
unfolding raw
raw-IsKey t bs h =
    let e : t ≡ bs = ground arith in
    let low : bytes_are_low t ≡ true = ground arith in
    let long : length t ≡ 32 = ground arith in (e, rw (sym e) (long, bytes_low t low))

raw-of-key : (bs : List ℕ) → IsKey bs → raw bs ≡ some bs
unfolding raw
raw-of-key bs k = let low = low_bytes bs k.1 in let long = k.0 in ground arith

pub raw_kit-laws : KitLaws raw_kit
raw_kit-laws = record {
  address_encode-IsKey = λ a bs h. (raw-IsKey a bs h).1;
  address_decode-encode = λ a bs h. sym (raw-IsKey a bs h).0;
  address_encode-decode = raw-of-key;
  base58_encode-IsByte = λ a bs h. (raw-IsKey a bs h).1.1;
  base58_decode-encode = λ a bs h. sym (raw-IsKey a bs h).0;
  base58_encode-decode = raw-of-key;
}
