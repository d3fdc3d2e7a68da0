-- ===== src/Timer/Chain.antt =====
-- What the nodes of lst_timer.cpp stand for: a list of timers, linked both ways.
use ai_inference_gateway.Prelude.{
  ℕ, ◌≡◌, ◌≢◌, refl, ap, ◌∙◌, Bool, true, false, List, [], ◌∷◌, ◌++◌, Option, none, some,
  if◌then◌else◌, ◌==◌, ◌||◌, update, arith,
}
use ai_inference_gateway.Timer.{Node, TimerList, Cmd, ◌>>=◌, load}

-- A timer of the list: its address, its time, and whom it is for.
pub record Timer : Type 0 where
  pub addr : ℕ
  pub expire : ℕ
  pub user : ℕ

abbrev pub node : Timer → ℕ → ℕ → Node
node t p n = record { expire = t.expire; user_data = t.user; prev = p; next = n }

-- The address that a list begins with, and that it ends with.
abbrev pub first : List Timer → ℕ → ℕ
first [] stop = stop
first (t ∷ ts) stop = t.addr

abbrev pub last : ℕ → List Timer → ℕ
last before [] = before
last before (t ∷ ts) = last t.addr ts

abbrev pub has : ℕ → List Timer → Bool
has a [] = false
has a (t ∷ ts) = (t.addr == a) || has a ts

-- The nodes of the list are linked, behind `before` and in front of `stop`.
abbrev pub Links : (ℕ → Option Node) → ℕ → List Timer → ℕ → Type 0
Links h before [] stop = Unit {0}
Links h before (t ∷ ts) stop =
    (t.addr ≢ 0) × (h t.addr ≡ some (node t before (first ts stop))) × Links h t.addr ts stop

abbrev pub IsDistinct : List Timer → Type 0
IsDistinct [] = Unit {0}
IsDistinct (t ∷ ts) = (has t.addr ts ≡ false) × IsDistinct ts

-- The tail of a list that has become empty in `tick` is left as it was.
abbrev pub EndsAt : ℕ → List Timer → Type 0
EndsAt p [] = Unit {0}
EndsAt p (t ∷ ts) = p ≡ last t.addr ts

pub record IsList (l : TimerList) (ts : List Timer) : Type 0 where
  pub starts : l.head ≡ first ts 0
  pub ends : EndsAt l.tail ts
  pub linked : Links l.nodes 0 ts 0
  pub distinct : IsDistinct ts

-- A command gives a result, and this holds of it.
abbrev pub Returns : {S A : Type 0} → Option (A × S) → (A → S → Type 0) → Type 0
Returns none P = ⊥
Returns (some (a, l)) P = P a l

pub Returns-map :
    {S A : Type 0} (r : Option (A × S)) (P Q : A → S → Type 0)
    → ((a : A) (l : S) → P a l → Q a l)
    → Returns r P
    → Returns r Q
Returns-map none P Q f p = p
Returns-map (some (a, l)) P Q f p = f a l p

pub Returns-bind :
    {R S A B : Type 0} (m : Option (A × R)) (f : A → R → Option (B × S))
    → (P : A → R → Type 0) (Q : B → S → Type 0) → Returns m P
    → ((a : A) (l : R) → P a l → Returns (f a l) Q)
    → Returns (elim m [ none ↦ none | some (a, l) ↦ f a l ]) Q
Returns-bind none f P Q p g = p
Returns-bind (some (a, l)) f P Q p g = g a l p

-- Two stores agree outside the list.
abbrev pub SameOutside : List Timer → (ℕ → Option Node) → (ℕ → Option Node) → Type 0
SameOutside ts h g = (a : ℕ) → has a ts ≡ false → g a ≡ h a

-- A chain survives any change that spares its nodes.
pub frame :
    (h g : ℕ → Option Node) (before stop : ℕ) (ts : List Timer)
    → Links h before ts stop
    → ((a : ℕ) → has a ts ≡ true → g a ≡ h a)
    → Links g before ts stop
frame h g before stop [] k same = tt
frame h g before stop (t ∷ ts) k same = (
  k.0,
  same t.addr (ground arith) ∙ k.1,
  frame h g t.addr stop ts k.2 (λ a i. same a (ground (arith, i))),
)

pub is-same : (a b : ℕ) → b ≡ a → (a == b) ≡ true
is-same a b e = ground arith

pub is-other : (a b c : ℕ) → a ≢ c → b ≡ c → (a == b) ≡ false
is-other a b c n e = ground arith

pub has-here : (t : Timer) (ts : List Timer) → has t.addr (t ∷ ts) ≡ true
has-here t ts = ground arith

-- An address that is in the list and one that is not.
pub has-apart : (a b : ℕ) (ts : List Timer) → has a ts ≡ false → has b ts ≡ true → a ≢ b
has-apart a b ts out i = λ e. cc

pub has-first : (a : ℕ) (t : Timer) (ts : List Timer) → has a (t ∷ ts) ≡ false → t.addr ≢ a
has-first a t ts o = ground (arith, o)

pub has-rest : (a : ℕ) (t : Timer) (ts : List Timer) → has a (t ∷ ts) ≡ false → has a ts ≡ false
has-rest a t ts o = ground (arith, o)

pub has-neither :
    (a : ℕ) (t : Timer) (ts : List Timer) → t.addr ≢ a → has a ts ≡ false → has a (t ∷ ts) ≡ false
has-neither a t ts n o = ground (arith, o)

pub update_other : (h : ℕ → Option Node) (p a : ℕ) (n : Option Node) → p ≢ a → update h p n a ≡ h a
update_other h p a n e = ground arith

pub update_same : (h : ℕ → Option Node) (p : ℕ) (n : Option Node) → update h p n p ≡ n
update_same h p n = ground arith

pub frame-update :
    (h : ℕ → Option Node) (p : ℕ) (n : Option Node) (before stop : ℕ) (ts : List Timer)
    → Links h before ts stop
    → has p ts ≡ false
    → Links (update h p n) before ts stop
frame-update h p n before stop ts k out =
    frame h (update h p n) before stop ts k (λ a i. ground (arith, i, out, has-apart p a ts out i))

pub has-append : (a : ℕ) (xs ys : List Timer) → has a (xs ++ ys) ≡ (has a xs || has a ys)
has-append a [] ys = refl
has-append a (x ∷ xs) ys = ground (arith, has-append a xs ys)

pub has-front : (a : ℕ) (xs ys : List Timer) → has a (xs ++ ys) ≡ false → has a xs ≡ false
has-front a xs ys o = ground (arith, o, has-append a xs ys)

pub has-back : (a : ℕ) (xs ys : List Timer) → has a (xs ++ ys) ≡ false → has a ys ≡ false
has-back a xs ys o = ground (arith, o, has-append a xs ys)

pub has-both :
    (a : ℕ) (xs ys : List Timer) → has a xs ≡ false → has a ys ≡ false → has a (xs ++ ys) ≡ false
has-both a xs ys o p = ground (arith, o, p, has-append a xs ys)

pub last-append : (b : ℕ) (xs ys : List Timer) → last b (xs ++ ys) ≡ last (last b xs) ys
last-append b [] ys = refl
last-append b (x ∷ xs) ys = last-append x.addr xs ys

pub first-append :
    (xs ys : List Timer) (stop : ℕ) → first (xs ++ ys) stop ≡ first xs (first ys stop)
first-append [] ys stop = refl
first-append (x ∷ xs) ys stop = refl

-- A chain in two parts.
pub Links-split :
    (h : ℕ → Option Node) (before stop : ℕ) (xs ys : List Timer)
    → Links h before (xs ++ ys) stop
    → Links h before xs (first ys stop) × Links h (last before xs) ys stop
Links-split h before stop [] ys k = (tt, k)
Links-split h before stop (x ∷ xs) ys k =
    let (front, back) = Links-split h x.addr stop xs ys k.2 in
    ((k.0, rw (first-append xs ys stop) at k.1, front), back)

pub Links-append :
    (h : ℕ → Option Node) (before stop : ℕ) (xs ys : List Timer)
    → Links h before xs (first ys stop)
    → Links h (last before xs) ys stop
    → Links h before (xs ++ ys) stop
Links-append h before stop [] ys front back = back
Links-append h before stop (x ∷ xs) ys front back =
    (front.0, rw (first-append xs ys stop) front.1, Links-append h x.addr stop xs ys front.2 back)

pub IsDistinct-split :
    (xs ys : List Timer)
    → IsDistinct (xs ++ ys)
    → IsDistinct xs × IsDistinct ys × ((a : ℕ) → has a ys ≡ true → has a xs ≡ false)
IsDistinct-split [] ys d = (tt, d, λ a i. refl)
IsDistinct-split (x ∷ xs) ys d =
    let (front, back, apart) = IsDistinct-split xs ys d.1 in
    (
      (ground (arith, d.0, has-append x.addr xs ys), front),
      back,
      λ a i. ground (arith, i, apart a i, d.0, has-append x.addr xs ys),
    )

pub IsDistinct-append :
    (xs ys : List Timer)
    → IsDistinct xs
    → IsDistinct ys
    → ((a : ℕ) → has a ys ≡ true → has a xs ≡ false)
    → IsDistinct (xs ++ ys)
IsDistinct-append [] ys front back apart = back
IsDistinct-append (x ∷ xs) ys front back apart = (
  ground (arith, front.0, has-append x.addr xs ys, apart x.addr),
  IsDistinct-append xs ys front.1 back (λ a i. ground (arith, apart a i)),
)

-- A node of the store that is not null.
pub record Holds (l : TimerList) (p : ℕ) (n : Node) : Type 0 where
  pub ne_null : p ≢ 0
  pub holds : l.nodes p ≡ some n

pub not_null : (l : TimerList) (p : ℕ) (n : Node) → Holds l p n → (p == 0) ≡ false
not_null l p n h = ground (arith, h.ne_null)

pub load_lem : (l : TimerList) (p : ℕ) (n : Node) → Holds l p n → load p l ≡ some (n, l)
unfolding load
load_lem l p n h = rw (not_null l p n h, h.holds) refl

-- A command after one that is known, and the two branches of a test.
pub bind_lem :
    {A B : Type 0} (m : Cmd A) (f : A → Cmd B) (a : A) (l l' : TimerList)
    → m l ≡ some (a, l')
    → (m >>= f) l ≡ f a l'
bind_lem m f a l l' e = ap (λ r. elim r [ none ↦ none | some (a, l') ↦ f a l' ]) e

pub load-bind :
    {B : Type 0} (l : TimerList) (p : ℕ) (n : Node) (f : Node → Cmd B)
    → Holds l p n
    → (load p >>= f) l ≡ f n l
load-bind l p n f h = bind_lem (load p) f n l l (load_lem l p n h)

pub if-then :
    {A : Type 0} (b : Bool) (x y : Cmd A) (l : TimerList) → b ≡ true → (if b then x else y) l ≡ x l
if-then b x y l e = rw e refl

pub if-else :
    {A : Type 0} (b : Bool) (x y : Cmd A) (l : TimerList) → b ≡ false → (if b then x else y) l ≡ y l
if-else b x y l e = rw e refl

-- The first node of a chain.
pub Links-Holds :
    (l : TimerList) (b stop : ℕ) (t : Timer) (ts : List Timer)
    → Links l.nodes b (t ∷ ts) stop
    → Holds l t.addr (node t b (first ts stop))
Links-Holds l b stop t ts k = record { ne_null = k.0; holds = k.1 }
