-- ===== src/Primitives/HexExamples.antt =====
-- Hexadecimal texts, and the theorems at them.
use kota.Base.{ℕ, ◌≡◌, List, [], ◌∷◌, map}
use kota.Primitives.Hex.{display, from_str, upper, from_str-upper}

-- The bytes from 200 on.
abbrev digest : List ℕ
digest =
    200 ∷ 201 ∷ 202 ∷ 203 ∷ 204 ∷ 205 ∷ 206 ∷ 207 ∷ 208 ∷ 209 ∷ 210 ∷ 211 ∷ 212 ∷ 213 ∷ 214 ∷ 215
    ∷ 216 ∷ 217 ∷ 218 ∷ 219 ∷ 220 ∷ 221 ∷ 222 ∷ 223 ∷ 224 ∷ 225 ∷ 226 ∷ 227 ∷ 228 ∷ 229 ∷ 230 ∷ 0
    ∷ []

from_str-upper_example : from_str (map upper (display digest)) ≡ from_str (display digest)
from_str-upper_example = from_str-upper (display digest)
