-- ===== src/Core/Buffer/Appends.antt =====
-- What the writing methods of core/oscar_buffer.cpp do to a buffer, as bytes behind its contents.
use tusa.Common.{ℕ, ◌+◌, ◌-◌, ◌≤◌, ◌<◌, ◌≡◌, refl, sym, ap, ◌∙◌, arith, List, [], ◌∷◌, ◌++◌}
use tusa.Common.{Bool-cases, inl, inr, leb, replicate}
use tusa.Common.{length, take, append-nil, append_assoc, length-append, length-set, length-take}
use tusa.Common.{length-replicate, take-set_next, take-take_append}
use tusa.Core.Buffer.Out.{
  OutBuffer, new_buffer, adjust, as_string, put_8_raw, put_bytes_raw, realloc,
}

-- The write position lies within the array, and bufsize is the array's size.
pub record IsWf (b : OutBuffer) : Type 0 where
  pub sized : length b.buffer ≡ b.bufsize
  pub within : b.cur_pos ≤ b.bufsize

-- `b'` is `b` with `s` written behind its contents, in the same array.
pub record Writes (b : OutBuffer) (s : List ℕ) (b' : OutBuffer) : Type 0 where
  pub wf : IsWf b'
  pub same_size : b'.bufsize ≡ b.bufsize
  pub moved : b'.cur_pos ≡ b.cur_pos + length s
  pub text : as_string b' ≡ as_string b ++ s

-- The same, where the array may have been moved to a larger one.
pub record Appends (b : OutBuffer) (s : List ℕ) (b' : OutBuffer) : Type 0 where
  pub wf : IsWf b'
  pub grown : b.bufsize ≤ b'.bufsize
  pub text : as_string b' ≡ as_string b ++ s

pub put_8_raw-Writes :
    (c : ℕ) (b : OutBuffer) → IsWf b → b.cur_pos + 1 ≤ b.bufsize → Writes b (c ∷ []) (put_8_raw c b)
unfolding put_8_raw as_string
put_8_raw-Writes c b w h = record {
  wf = record { sized = length-set b.buffer b.cur_pos c ∙ w.sized; within = omega arith };
  same_size = refl;
  moved = omega arith;
  text = take-set_next b.cur_pos b.buffer c (omega (arith, w.sized));
}

pub Writes-nil : {b : OutBuffer} → IsWf b → Writes b [] b
Writes-nil w = record { wf = w; same_size = refl; moved = omega arith; text = sym (append-nil _) }

pub Writes-trans :
    {b b' b'' : OutBuffer} {s t : List ℕ} → Writes b s b' → Writes b' t b'' → Writes b (s ++ t) b''
Writes-trans {s = s} {t = t} p q = record {
  wf = q.wf;
  same_size = q.same_size ∙ p.same_size;
  moved = omega (arith, p.moved, q.moved, length-append s t);
  text = q.text ∙ ap (λ x. x ++ t) p.text ∙ append_assoc _ s t;
}

-- A run of raw writes fits if there is room for its length.
pub put_bytes_raw-Writes :
    (s : List ℕ) (b : OutBuffer)
    → IsWf b
    → b.cur_pos + length s ≤ b.bufsize
    → Writes b s (put_bytes_raw s b)
unfolding put_bytes_raw
put_bytes_raw-Writes [] b w h = Writes-nil w
put_bytes_raw-Writes (c ∷ s) b w h =
    let first : Writes b (c ∷ []) (put_8_raw c b) = put_8_raw-Writes c b w (omega arith) in
    Writes-trans first (
      put_bytes_raw-Writes s (put_8_raw c b) first.wf (omega (arith, first.moved, first.same_size)))

-- After adjust there is room for n bytes, and one to spare.
pub record Adjusts (n : ℕ) (b b' : OutBuffer) : Type 0 where
  pub wf : IsWf b'
  pub same_pos : b'.cur_pos ≡ b.cur_pos
  pub room : b.cur_pos + n < b'.bufsize
  pub grown : b.bufsize ≤ b'.bufsize
  pub text : as_string b' ≡ as_string b

length-realloc : (old : List ℕ) (nnew junk : ℕ) → length (realloc old nnew junk) ≡ nnew
unfolding realloc
length-realloc old nnew junk = omega (
  arith,
  length-append (take nnew old) (replicate (nnew - length old) junk),
  length-take nnew old,
  length-replicate (nnew - length old) junk,
)

pub adjust-Adjusts : (n : ℕ) (b : OutBuffer) → IsWf b → Adjusts n b (adjust n b)
unfolding adjust as_string realloc
adjust-Adjusts n b w = elim (Bool-cases (leb b.bufsize (b.cur_pos + n))) [
  | inl full ↦ rw full (record {
    wf = record { sized = length-realloc b.buffer _ b.junk; within = omega arith };
    same_pos = refl;
    room = omega arith;
    grown = ground arith;
    text =
        take-take_append b.cur_pos (b.cur_pos + n + 1024) b.buffer
          (replicate (b.cur_pos + n + 1024 - length b.buffer) b.junk) (omega arith)
          (omega (arith, w.sized));
  })
  | inr fits ↦
      rw fits
        (record { wf = w; same_pos = refl; room = ground arith; grown = omega arith; text = refl })
]

pub new_buffer-IsWf : (junk : ℕ) → IsWf (new_buffer junk)
unfolding new_buffer
new_buffer-IsWf junk = record { sized = length-replicate 256 junk; within = omega arith }

-- Nothing that a writer appends is lost, whatever the size of the array was.
pub Appends-of-Writes :
    {n : ℕ} {b b' b'' : OutBuffer} {s : List ℕ} → Adjusts n b b' → Writes b' s b'' → Appends b s b''
Appends-of-Writes {s = s} p q = record {
  wf = q.wf;
  grown = omega (arith, p.grown, q.same_size);
  text = q.text ∙ ap (λ x. x ++ s) p.text;
}

pub Appends-nil : {b : OutBuffer} → IsWf b → Appends b [] b
Appends-nil w = record { wf = w; grown = omega arith; text = sym (append-nil _) }

pub Appends-trans :
    {b b' b'' : OutBuffer} {s t : List ℕ}
    → Appends b s b'
    → Appends b' t b''
    → Appends b (s ++ t) b''
Appends-trans {s = s} {t = t} p q = record {
  wf = q.wf;
  grown = omega (arith, p.grown, q.grown);
  text = q.text ∙ ap (λ x. x ++ t) p.text ∙ append_assoc _ s t;
}

-- `adjust` for n bytes and then at most n raw writes: what every put_ method is.
pub adjust-put_bytes_raw-Appends :
    (n : ℕ) (s : List ℕ) (b : OutBuffer)
    → IsWf b
    → length s ≤ n
    → Appends b s (put_bytes_raw s (adjust n b))
adjust-put_bytes_raw-Appends n s b w h =
    let a : Adjusts n b (adjust n b) = adjust-Adjusts n b w in
    Appends-of-Writes a
      (put_bytes_raw-Writes s (adjust n b) a.wf (omega (arith, a.same_pos, a.room)))
