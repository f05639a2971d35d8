-- ===== src/Cursors/Tests.antt =====
-- Texts of ids and numbers in unary, and a cursor in them.
use rd_shop_backend.Base.{
  ℕ, zero, suc, ◌≡◌, refl, ap, Bool, false, not, some, [], ◌∷◌, length, replicate, Text, contains,
}
use rd_shop_backend.Cursors.{CursorText, Readable, cursor_separator}

abbrev is_word : Text → Bool
is_word t = not (contains cursor_separator t)

abbrev pub word : ℕ → ℕ → Text
word c n = c ∷ replicate n c

abbrev pub count : Text → ℕ
count [] = 0
count (c ∷ t) = length t

abbrev pub texts : CursorText
texts = record {
  is_uuid = is_word;
  number_of = λ t. some (count t);
  number_text = word 49;
  id_text = word 97;
  id_of = count;
}

letters_free : (n : ℕ) → contains cursor_separator (replicate n 97) ≡ false
letters_free zero = refl
letters_free (suc n) = letters_free n

pub length-replicate : (c n : ℕ) → length (replicate n c) ≡ n
length-replicate c zero = refl
length-replicate c (suc n) = ap suc (length-replicate c n)

pub texts-Readable : Readable texts
texts-Readable = record {
  uuid = λ k. ap not (letters_free k);
  free = letters_free;
  some_id = λ k e. cc;
  id_back = λ k. length-replicate 97 k;
  some_digit = λ n e. cc;
  number_back = λ n. ap some (length-replicate 49 n);
}
