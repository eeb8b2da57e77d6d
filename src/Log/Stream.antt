-- ===== src/Log/Stream.antt =====
-- The std::ostream of LogFormatter::format, as far as the format items use it: the text written
-- and the field width that std::setw leaves for the next formatted output. The fill character is
-- a space, and a field is filled from the left: no item asks for another alignment.
use web_framework.Base.{
  ℕ, zero, suc, ◌+◌, ◌-◌, ◌/◌, ◌%◌, [], ◌∷◌, ◌++◌, Text, length, ltb, if◌then◌else◌,
}

-- int32_t, as the integer that it stands for; `negsuc n` is -(n + 1).
pub data ℤ : Type 0 where
  pos : ℕ → ℤ
  negsuc : ℕ → ℤ

pub record Stream : Type 0 where
  pub text : Text
  pub width : ℕ

abbrev pub empty_stream : Stream
empty_stream = record { text = []; width = 0 }

unfoldable pub fill : ℕ → Text
fill zero = []
fill (suc n) = b' ' ∷ fill n

-- `os << text`: the width holds for one output.
unfoldable pub put_text : Stream → Text → Stream
unfolding fill
put_text os t = record { text = os.text ++ (fill (os.width - length t) ++ t); width = 0 }

-- `os << std::endl` writes its newline unformatted: the width stays.
unfoldable pub put_endl : Stream → Stream
put_endl os = record os { text = os.text ++ b'\n' ∷ [] }

-- `os << std::setw(n)`
unfoldable pub set_width : Stream → ℕ → Stream
set_width os n = record os { width = n }

-- The decimal digits of a number, most significant first; `suc n` rounds serve for `n`.
digits_onto : ℕ → ℕ → Text → Text
digits_onto zero n out = out
digits_onto (suc f) n out =
    let rest = digits_onto f (n / 10) ((b'0' + n % 10) ∷ out) in
    if ltb n 10 then (b'0' + n) ∷ out else rest

unfoldable pub decimal : ℕ → Text
unfolding digits_onto
decimal n = digits_onto (suc n) n []

unfoldable pub signed_decimal : ℤ → Text
unfolding decimal
signed_decimal (pos n) = decimal n
signed_decimal (negsuc n) = b'-' ∷ decimal (suc n)
