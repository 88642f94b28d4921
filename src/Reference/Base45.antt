-- ===== src/Reference/Base45.antt =====
-- packages/fixtures/src/base45.ts: the reference base45. A Base45Error is `foreign`.
use vadum.Base.{ℕ, ◌+◌, ◌*◌, ◌/◌, ◌%◌, List, [], ◌∷◌, get_or}
use vadum.Base.Text.{Text, codes}

abbrev pub alphabet : Text
alphabet = codes "0123456789ABCDEFGHIJKLMNOPQRSTUVWXYZ $%*+-./:"

-- `BASE45_ALPHABET[n]`.
unfoldable pub letter : ℕ → ℕ
letter n = get_or alphabet n 0

-- The loop over pairs of bytes, and the odd byte behind it.
unfoldable pub to_text : List ℕ → Text
to_text [] = []
to_text (b ∷ []) = letter (b % 45) ∷ letter (b / 45) ∷ []
to_text (a ∷ b ∷ rest) =
    let n = a * 256 + b in letter (n % 45) ∷ letter (n / 45 % 45) ∷ letter (n / 2025) ∷ to_text rest
