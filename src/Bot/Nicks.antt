-- ===== src/Bot/Nicks.antt =====
-- str_nick of bot/bot-shared/utils.cpp, by which the bots find a nick whatever its case and alphabet.
use tusa.Common.{ℕ, suc, ◌-◌, ◌<◌, ◌≡◌, refl, List, [], ◌∷◌, Bool, true, ◌&&◌}
use tusa.Common.{ap, ◌∙◌, ==_iff, length, All}
use tusa.Common.{all_below, all_below-lt, ltb, leb, ◌==◌, if◌then◌else◌, get_or}

-- u_table from 0x80 on; below it is that of ASCII.
abbrev u_table_high : List ℕ
u_table_high =
    128 ∷ 129 ∷ 130 ∷ 129 ∷ 132 ∷ 133 ∷ 134 ∷ 135 ∷ 136 ∷ 137 ∷ 138 ∷ 139 ∷ 140 ∷ 141 ∷ 142 ∷ 143
    ∷ 128 ∷ 145 ∷ 146 ∷ 147 ∷ 148 ∷ 149 ∷ 150 ∷ 151 ∷ 152 ∷ 153 ∷ 138 ∷ 155 ∷ 140 ∷ 141 ∷ 142 ∷ 143
    ∷ 160 ∷ 161 ∷ 161 ∷ 163 ∷ 164 ∷ 165 ∷ 166 ∷ 167 ∷ 168 ∷ 169 ∷ 170 ∷ 171 ∷ 172 ∷ 173 ∷ 174 ∷ 175
    ∷ 176 ∷ 177 ∷ 178 ∷ 178 ∷ 165 ∷ 181 ∷ 182 ∷ 183 ∷ 168 ∷ 185 ∷ 170 ∷ 187 ∷ 163 ∷ 189 ∷ 189 ∷ 175
    ∷ 192 ∷ 193 ∷ 194 ∷ 195 ∷ 196 ∷ 197 ∷ 198 ∷ 199 ∷ 200 ∷ 201 ∷ 202 ∷ 203 ∷ 204 ∷ 205 ∷ 206 ∷ 207
    ∷ 208 ∷ 209 ∷ 210 ∷ 211 ∷ 212 ∷ 213 ∷ 214 ∷ 215 ∷ 216 ∷ 217 ∷ 218 ∷ 219 ∷ 220 ∷ 221 ∷ 222 ∷ 223
    ∷ 192 ∷ 193 ∷ 194 ∷ 195 ∷ 196 ∷ 197 ∷ 198 ∷ 199 ∷ 200 ∷ 201 ∷ 202 ∷ 203 ∷ 204 ∷ 205 ∷ 206 ∷ 207
    ∷ 208 ∷ 209 ∷ 210 ∷ 211 ∷ 212 ∷ 213 ∷ 214 ∷ 215 ∷ 216 ∷ 217 ∷ 218 ∷ 219 ∷ 220 ∷ 221 ∷ 222 ∷ 223
    ∷ []

abbrev pub u_table : ℕ → ℕ
u_table z =
    if ltb z 128
    then (if leb 97 z && ltb z 123 then z - 32 else z)
    else get_or u_table_high (z - 128) 0

-- nicks_char from 0xc0 on; below it changes nothing.
abbrev nicks_char_high : List ℕ
nicks_char_high =
    65 ∷ 193 ∷ 66 ∷ 195 ∷ 196 ∷ 69 ∷ 198 ∷ 199 ∷ 200 ∷ 201 ∷ 75 ∷ 203 ∷ 77 ∷ 72 ∷ 79 ∷ 207 ∷ 80 ∷ 67
    ∷ 84 ∷ 211 ∷ 212 ∷ 88 ∷ 214 ∷ 215 ∷ 216 ∷ 217 ∷ 218 ∷ 219 ∷ 220 ∷ 221 ∷ 222 ∷ 223 ∷ 97 ∷ 225
    ∷ 226 ∷ 227 ∷ 228 ∷ 101 ∷ 230 ∷ 231 ∷ 232 ∷ 233 ∷ 234 ∷ 235 ∷ 236 ∷ 237 ∷ 111 ∷ 239 ∷ 112 ∷ 99
    ∷ 242 ∷ 243 ∷ 244 ∷ 88 ∷ 246 ∷ 247 ∷ 248 ∷ 249 ∷ 250 ∷ 251 ∷ 252 ∷ 253 ∷ 254 ∷ 255 ∷ []

abbrev pub nicks_char : ℕ → ℕ
nicks_char z = if ltb z 192 then z else get_or nicks_char_high (z - 192) 0

unfoldable pub strupper : List ℕ → List ℕ
strupper [] = []
strupper (z ∷ s) = u_table z ∷ strupper s

-- The loop of str_nick, on a string of strupper.
unfoldable pub nick_chars : List ℕ → List ℕ
nick_chars [] = []
nick_chars (c ∷ u) = nicks_char c ∷ nick_chars u

unfoldable pub str_nick : List ℕ → List ℕ
unfolding strupper nick_chars
str_nick n = strupper (nick_chars (strupper n))

-- What becomes of one byte.
abbrev key : ℕ → ℕ
key z = u_table (nicks_char (u_table z))

unfoldable keys : List ℕ → List ℕ
keys [] = []
keys (z ∷ s) = key z ∷ keys s

str_nick-keys : (s : List ℕ) → str_nick s ≡ keys s
unfolding str_nick keys
str_nick-keys [] = refl
str_nick-keys (z ∷ s) = ap (λ r. key z ∷ r) (str_nick-keys s)

abbrev is_stable : ℕ → Bool
is_stable z = key (key z) == key z

bytes_stable : all_below is_stable 256 ≡ true
unfolding all_below
bytes_stable = refl

keys-keys : (s : List ℕ) → All (λ z. z < 256) s → keys (keys s) ≡ keys s
unfolding keys
keys-keys [] h = refl
keys-keys (z ∷ s) (b, h) =
    let e : key (key z) ≡ key z =
      (==_iff (key (key z)) (key z)).0 (all_below-lt is_stable 256 z bytes_stable b) in
    ap (λ x. x ∷ keys (keys s)) e ∙ ap (λ r. key z ∷ r) (keys-keys s h)

length-keys : (s : List ℕ) → length (keys s) ≡ length s
unfolding keys
length-keys [] = refl
length-keys (z ∷ s) = ap suc (length-keys s)

-- On bytes str_nick is idempotent, and it keeps the length.
pub str_nick-str_nick :
    (s : List ℕ)
    → All (λ z. z < 256) s
    → (str_nick (str_nick s) ≡ str_nick s) × (length (str_nick s) ≡ length s)
unfolding str_nick
str_nick-str_nick s h = (
  rw (str_nick-keys s, str_nick-keys (keys s)) (keys-keys s h),
  rw (str_nick-keys s) (length-keys s),
)
