-- ===== src/Io/Wire.antt =====
-- Proof rules for code that only appends to a file, or only reads on: what is written, by how many
-- calls, and what a reader makes of bytes that stand at its position.
use isam_db_c_language.Base.{
  ℕ, ◌+◌, ◌-◌, ◌≤◌, ◌<◌, ◌^◌, ◌≡◌, refl, ap, sym, ◌∙◌, arith, Option, none, some, List, [], ◌++◌,
  Outcome, ok, undefined, length, drop, length-append, append_assoc, append-nil,
}
use isam_db_c_language.Io.{File, Io, ◌>>=◌, ◌>>◌, pure, lift, write, read, read_be, write_be}
use isam_db_c_language.Io.Bytes.{
  be, from_be, pad, length-be, from_be-be, pad_self, overwrite_end, drop-add, take-length_append,
  drop-length_append,
}

-- A step that succeeds, and the rest.
pub bind-ok :
    {A B : Type 0} (m : Io A) (k : A → Io B) (f g : File) (a : A)
    → m f ≡ ok (some a, g)
    → (m >>= k) f ≡ k a g
bind-ok m k f g a e = rw (e, ◌>>=◌) refl

-- What `>>=` does with the result of its first step.
abbrev resume : {A B : Type 0} → (A → Io B) → Outcome (Option A × File) → Outcome (Option B × File)
resume k undefined = undefined
resume k (ok r) = elim r.0 [ none ↦ ok (none, r.1) | some a ↦ k a r.1 ]

resume-resume :
    {A B C : Type 0} (k : A → Io B) (l : B → Io C) (r : Outcome (Option A × File))
    → resume l (resume k r) ≡ resume (λ x. k x >>= l) r
resume-resume k l undefined = refl
resume-resume k l (ok (none, f)) = refl
resume-resume k l (ok (some a, f)) = refl

bind_resume : {A B : Type 0} (m : Io A) (k : A → Io B) (f : File) → (m >>= k) f ≡ resume k (m f)
bind_resume {A} m k f = go (m f) refl
  where
    go : (r : Outcome (Option A × File)) → m f ≡ r → (m >>= k) f ≡ resume k (m f)
    go undefined e = rw (e, ◌>>=◌) refl
    go (ok (none, g)) e = rw (e, ◌>>=◌) refl
    go (ok (some a, g)) e = rw (e, ◌>>=◌) refl

-- The position is the end of the file.
abbrev pub AtEnd : File → Type 0
AtEnd f = f.pos ≡ length f.bytes

-- The file after `n` successful calls that appended `d`.
abbrev pub advance : List ℕ → ℕ → File → File
advance d n f = record { bytes = f.bytes ++ d; pos = f.pos + length d; budget = f.budget - n }

-- `m` appends `d` by `n` calls, if the system grants as many.
abbrev pub Appends : Io (Unit {0}) → List ℕ → ℕ → Type 0
Appends m d n = (f : File) → AtEnd f → n ≤ f.budget → m f ≡ ok (some tt, advance d n f)

pub AtEnd-advance : (d : List ℕ) (n : ℕ) (f : File) → AtEnd f → AtEnd (advance d n f)
AtEnd-advance d n f e = omega (arith, length-append f.bytes d)

advance-advance :
    (d d' : List ℕ) (n n' : ℕ) (f : File)
    → advance d' n' (advance d n f) ≡ advance (d ++ d') (n + n') f
advance-advance d d' n n' f =
    let pos : f.pos + length d + length d' ≡ f.pos + length (d ++ d') =
      omega (arith, length-append d d') in
    let budget : f.budget - n - n' ≡ f.budget - (n + n') = omega arith in
    λ i. record { bytes = append_assoc f.bytes d d' i; pos = pos i; budget = budget i }

pub Appends-write : (d : List ℕ) → Appends (write d) d 1
unfolding write
Appends-write d f e h = ground (arith, overwrite_end f.bytes d f.pos)

pub Appends-write_be : (k n : ℕ) → Appends (write_be k n) (be k n) 1
unfolding write_be
Appends-write_be k n = Appends-write (be k n)

pub Appends-pure : Appends (pure tt) [] 0
Appends-pure f e h =
    let pos : f.pos ≡ f.pos + 0 = omega arith in
    let budget : f.budget ≡ f.budget - 0 = omega arith in
    λ i. ok (some tt, record { bytes = sym (append-nil f.bytes) i; pos = pos i; budget = budget i })

pub Appends-seq :
    (m k : Io (Unit {0})) (d d' : List ℕ) (n n' : ℕ)
    → Appends m d n
    → Appends k d' n'
    → Appends (m >> k) (d ++ d') (n + n')
Appends-seq m k d d' n n' p q f e h =
    bind-ok m (λ _. k) f (advance d n f) tt (p f e (omega arith))
    ∙ q (advance d n f) (AtEnd-advance d n f e) (omega arith)
    ∙ ap (λ (g : File). ok (some tt, g)) (advance-advance d d' n n' f)

-- Pure code in between.
pub Appends-lift :
    {A : Type 0} (o : Outcome A) (a : A) (k : A → Io (Unit {0})) (d : List ℕ) (n : ℕ)
    → o ≡ ok a
    → Appends (k a) d n
    → Appends (lift o >>= k) d n
Appends-lift o a k d n e p f end h = bind-ok (lift o) k f f a (rw e refl) ∙ p f end h

-- The file after `n` successful calls that read `l` bytes.
abbrev pub skip : ℕ → ℕ → File → File
skip l n f = record { bytes = f.bytes; pos = f.pos + l; budget = f.budget - n }

-- Where `d` stands at the position, `m` reads just that, by `n` calls, and yields `a`.
abbrev pub Reads : {A : Type 0} → Io A → List ℕ → ℕ → A → Type 0
Reads m d n a =
    (f : File) (s : List ℕ)
    → drop f.pos f.bytes ≡ d ++ s
    → n ≤ f.budget
    → m f ≡ ok (some a, skip (length d) n f)

skip-skip : (l l' n n' : ℕ) (f : File) → skip l' n' (skip l n f) ≡ skip (l + l') (n + n') f
skip-skip l l' n n' f =
    let pos : f.pos + l + l' ≡ f.pos + (l + l') = omega arith in
    let budget : f.budget - n - n' ≡ f.budget - (n + n') = omega arith in
    λ i. record { bytes = f.bytes; pos = pos i; budget = budget i }

pub Reads-read : (d : List ℕ) (l : ℕ) → length d ≡ l → Reads (read l) d 1 d
unfolding read
Reads-read d l len f s e h = ground (arith, take-length_append d s l len)

pub Reads-pure : {A : Type 0} (a : A) → Reads (pure a) [] 0 a
Reads-pure a f s e h =
    let pos : f.pos ≡ f.pos + 0 = omega arith in
    let budget : f.budget ≡ f.budget - 0 = omega arith in
    λ i. ok (some a, record { bytes = f.bytes; pos = pos i; budget = budget i })

pub Reads-bind :
    {A B : Type 0} (m : Io A) (k : A → Io B) (d d' : List ℕ) (n n' : ℕ) (a : A) (b : B)
    → Reads m d n a
    → Reads (k a) d' n' b
    → Reads (m >>= k) (d ++ d') (n + n') b
Reads-bind m k d d' n n' a b p q f s e h =
    let there : drop (f.pos + length d) f.bytes ≡ d' ++ s =
      drop-add f.bytes f.pos (length d)
      ∙ ap (drop (length d)) (e ∙ append_assoc d d' s)
      ∙ drop-length_append d (d' ++ s) (length d) refl in
    bind-ok m k f (skip (length d) n f) a (p f (d' ++ s) (e ∙ append_assoc d d' s) (omega arith))
    ∙ q (skip (length d) n f) s there (omega arith)
    ∙ ap (λ (g : File). ok (some b, g))
        (skip-skip (length d) (length d') n n' f
          ∙ ap (λ (l : ℕ). skip l (n + n') f) (sym (length-append d d')))

pub Reads-map :
    {A B : Type 0} (m : Io A) (g : A → B) (d : List ℕ) (n : ℕ) (a : A)
    → Reads m d n a
    → Reads (m >>= λ x. pure (g x)) d n (g a)
Reads-map m g d n a p f s e h = bind-ok m (λ x. pure (g x)) f (skip (length d) n f) a (p f s e h)

-- Pure code at the end.
pub Reads-last :
    {A B : Type 0} (m : Io A) (k : A → Outcome B) (d : List ℕ) (n : ℕ) (a : A) (b : B)
    → k a ≡ ok b
    → Reads m d n a
    → Reads (m >>= λ x. lift (k x)) d n b
Reads-last m k d n a b e p f s there h =
    bind-ok m (λ x. lift (k x)) f (skip (length d) n f) a (p f s there h) ∙ rw e refl

pub Reads-assoc :
    {A B C : Type 0} (m : Io A) (k : A → Io B) (l : B → Io C) (d : List ℕ) (n : ℕ) (c : C)
    → Reads (m >>= k >>= l) d n c
    → Reads (m >>= λ x. k x >>= l) d n c
Reads-assoc m k l d n c p f s e h =
    bind_resume m (λ x. k x >>= l) f
    ∙ sym (resume-resume k l (m f))
    ∙ ap (resume l) (sym (bind_resume m k f))
    ∙ sym (bind_resume (m >>= k) l f)
    ∙ p f s e h

pub Reads-lift :
    {A B : Type 0} (o : Outcome A) (a : A) (k : A → Io B) (d : List ℕ) (n : ℕ) (b : B)
    → o ≡ ok a
    → Reads (k a) d n b
    → Reads (lift o >>= k) d n b
Reads-lift o a k d n b e p f s there h = bind-ok (lift o) k f f a (rw e refl) ∙ p f s there h

pub Reads-read_be : (k n : ℕ) → n < 256 ^ k → Reads (read_be k) (be k n) 1 n
unfolding read_be
Reads-read_be k n h f s e b =
    bind-ok (read k) (λ d. pure (from_be (pad k d))) f (skip (length (be k n)) 1 f) (be k n)
      (Reads-read (be k n) k (length-be k n) f s e b)
    ∙ ap (λ (a : ℕ). ok (some a, skip (length (be k n)) 1 f))
        (ap from_be (pad_self k (be k n) (length-be k n)) ∙ from_be-be k n h)
