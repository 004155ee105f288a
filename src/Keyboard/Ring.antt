-- ===== src/Keyboard/Ring.antt =====
-- The ring of kernel/drivers/keyboard.c against a queue of at most 31 keys.
use flare_os.Prelude.{
  ℕ, zero, suc, ◌+◌, ◌-◌, ◌%◌, ◌<◌, ◌≤◌, ◌≡◌, refl, ◌≢◌, List, [], ◌∷◌, ◌++◌, Option, none, some,
  arith, ltb, if◌then◌else◌, length, get_or, set, length-set, lt→ltb, false, get_or-set_self,
  get_or-set_ne, ap₂,
}
use native.Mathlib.Decide.{ℕ_discrete}
use flare_os.Keyboard.{
  Keyboard, enqueue, enqueue_decoded, decode, translate, keyboard_handle_irq, poll_read,
  poll_advance, keyboard_poll_event,
}

pub record IsValid (k : Keyboard) : Type 0 where
  pub entries : length k.key_queue ≡ 32
  pub head_in : k.key_queue_head < 32
  pub tail_in : k.key_queue_tail < 32

-- The `n` keys from index `t` on, going round at 32.
abbrev pub window : List ℕ → ℕ → ℕ → List ℕ
window q t zero = []
window q t (suc n) = get_or q t 0 ∷ window q ((t + 1) % 32) n

abbrev pub pending : Keyboard → ℕ
pending k = (k.key_queue_head + 32 - k.key_queue_tail) % 32

-- The keys that wait, oldest first.
abbrev pub contents : Keyboard → List ℕ
contents k = window k.key_queue k.key_queue_tail (pending k)

pub length-window : (q : List ℕ) (t n : ℕ) → length (window q t n) ≡ n
length-window q t zero = refl
length-window q t (suc n) = omega (arith, length-window q ((t + 1) % 32) n)

-- Writing the entry behind a window adds its key.
window-set :
    (q : List ℕ) (x t n i : ℕ)
    → length q ≡ 32
    → t < 32
    → n < 32
    → i ≡ (t + n) % 32
    → window (set q i x) t (suc n) ≡ window q t n ++ x ∷ []
window-set q x t zero i len ht hn e =
    ap₂ ◌∷◌ (let e' : i ≡ t = omega arith in rw (e', get_or-set_self q t x 0 (omega arith)) refl)
      refl
window-set q x t (suc n) i len ht hn e =
    ap₂ ◌∷◌ (get_or-set_ne q x 0 (omega arith))
      (window-set q x ((t + 1) % 32) n i len (omega arith) (omega arith) (omega arith))

window-uncons :
    (q : List ℕ) (t n : ℕ) → n ≢ 0 → window q t n ≡ get_or q t 0 ∷ window q ((t + 1) % 32) (n - 1)
window-uncons q t zero h = absurd (h refl)
window-uncons q t (suc n) h = let e : suc n - 1 ≡ n = omega arith in rw e refl

-- What the ring is meant to be: a queue that takes a key while it holds fewer than 31.
unfoldable pub push : List ℕ → ℕ → List ℕ
push keys key = if ltb (length keys) 31 then keys ++ key ∷ [] else keys

abbrev next_head : Keyboard → ℕ
next_head k = (k.key_queue_head + 1) % 32 % 256

enqueue-room :
    (k : Keyboard) (key : ℕ)
    → IsValid k
    → next_head k ≢ k.key_queue_tail
    → contents (enqueue k key) ≡ contents k ++ key ∷ []
unfolding enqueue
enqueue-room k key v room =
    let kept : enqueue k key ≡ record k {
      key_queue = set k.key_queue k.key_queue_head key;
      key_queue_head = next_head k;
    } =
      ground arith in
    let grown : (next_head k + 32 - k.key_queue_tail) % 32 ≡ suc (pending k) =
      omega (arith, v.head_in, v.tail_in) in
    rw (kept, grown)
      (window-set k.key_queue key k.key_queue_tail (pending k) k.key_queue_head v.entries v.tail_in
        (omega (arith, v.head_in, v.tail_in)) (omega (arith, v.head_in, v.tail_in)))

enqueue-full : (k : Keyboard) (key : ℕ) → next_head k ≡ k.key_queue_tail → enqueue k key ≡ k
unfolding enqueue
enqueue-full k key full = ground arith

-- A key that is enqueued goes behind the waiting ones, or is dropped when 31 wait.
pub contents-enqueue :
    (k : Keyboard) (key : ℕ) → IsValid k → contents (enqueue k key) ≡ push (contents k) key
unfolding push
contents-enqueue k key v = elim (ℕ_discrete (next_head k) k.key_queue_tail) [
  | yes full ↦
      rw
        (
          enqueue-full k key full,
          length-window,
          no_room (pending k) (omega (arith, v.head_in, v.tail_in)),
        )
        refl
  | no room ↦
      rw
        (
          enqueue-room k key v room,
          length-window,
          lt→ltb (pending k) 31 (omega (arith, v.head_in, v.tail_in)),
        )
        refl
]
  where
    no_room : (n : ℕ) → 31 ≤ n → ltb n 31 ≡ false
    no_room n h = ground arith

pub enqueue-IsValid : (k : Keyboard) (key : ℕ) → IsValid k → IsValid (enqueue k key)
unfolding enqueue
enqueue-IsValid k key v = ground (arith, length-set k.key_queue k.key_queue_head key)

abbrev SameRing : Keyboard → Keyboard → Type 0
SameRing k k' =
    (k'.key_queue ≡ k.key_queue)
    × (k'.key_queue_head ≡ k.key_queue_head)
    × (k'.key_queue_tail ≡ k.key_queue_tail)

translate-SameRing : (k : Keyboard) (scancode : ℕ) → SameRing k (translate k scancode).0
unfolding translate
translate-SameRing k scancode = ground arith

-- A scancode changes the modifiers only; the ring waits for `enqueue`.
pub decode-SameRing : (k : Keyboard) (scancode : ℕ) → SameRing k (decode k scancode).0
unfolding decode
decode-SameRing k scancode = ground (arith, translate-SameRing k scancode)

pub decode-IsValid : (k : Keyboard) (scancode : ℕ) → IsValid k → IsValid (decode k scancode).0
decode-IsValid k scancode v = ground (arith, decode-SameRing k scancode)

pub contents-decode : (k : Keyboard) (scancode : ℕ) → contents (decode k scancode).0 ≡ contents k
contents-decode k scancode =
    let same = decode-SameRing k scancode in rw (same.0, same.1, same.2) refl

-- What the queue becomes when a key, or none, comes in.
unfoldable pub push_option : List ℕ → Option ℕ → List ℕ
push_option keys none = keys
push_option keys (some key) = push keys key

pub enqueue_decoded-refines :
    (r : Keyboard × Option ℕ)
    → IsValid r.0
    → IsValid (enqueue_decoded r) × (contents (enqueue_decoded r) ≡ push_option (contents r.0) r.1)
unfolding push_option
enqueue_decoded-refines (k, none) v = (v, refl)
enqueue_decoded-refines (k, some key) v = (enqueue-IsValid k key v, contents-enqueue k key v)

-- An interrupt keeps the ring valid, and puts the key that its scancode decodes to, if any, behind
-- the waiting keys unless 31 of them wait.
pub irq_refines :
    (k : Keyboard) (scancode : ℕ)
    → IsValid k
    → IsValid (keyboard_handle_irq k scancode)
      × (contents (keyboard_handle_irq k scancode) ≡ push_option (contents k) (decode k scancode).1)
unfolding keyboard_handle_irq
irq_refines k scancode v =
    rw (← contents-decode k scancode)
      (enqueue_decoded-refines (decode k scancode) (decode-IsValid k scancode v))

-- Poll takes the oldest key, and takes nothing from an empty ring.
unfoldable pub pop : List ℕ → Option ℕ × List ℕ
pop [] = (none, [])
pop (key ∷ keys) = (some key, keys)

poll-empty :
    (k : Keyboard) → k.key_queue_tail ≡ k.key_queue_head → keyboard_poll_event k ≡ (none, k)
unfolding keyboard_poll_event poll_read
poll-empty k e = ground arith

poll-some :
    (k : Keyboard)
    → k.key_queue_tail ≢ k.key_queue_head
    → keyboard_poll_event k ≡ (
      some (get_or k.key_queue k.key_queue_tail 0),
      record k { key_queue_tail = (k.key_queue_tail + 1) % 32 % 256 },
    )
unfolding keyboard_poll_event poll_read poll_advance
poll-some k ne = ground arith

-- `keyboard_poll_event` returns what the queue's `pop` returns, and leaves its rest in the ring.
pub poll_refines :
    (k : Keyboard)
    → IsValid k
    → let (key, k') = keyboard_poll_event k in (key, contents k') ≡ pop (contents k)
unfolding pop
poll_refines k v = elim (ℕ_discrete k.key_queue_tail k.key_queue_head) [
  | yes e ↦
      let nothing : pending k ≡ 0 = omega (arith, v.head_in) in rw (poll-empty k e, nothing) refl
  | no ne ↦
      let tail : (k.key_queue_tail + 1) % 32 % 256 ≡ (k.key_queue_tail + 1) % 32 = omega arith in
      let rest : (k.key_queue_head + 32 - (k.key_queue_tail + 1) % 32) % 32 ≡ pending k - 1 =
        omega (arith, v.head_in, v.tail_in) in
      rw
        (
          poll-some k ne,
          tail,
          rest,
          window-uncons k.key_queue k.key_queue_tail (pending k)
              (omega (arith, v.head_in, v.tail_in)),
        )
        refl
]

pub poll-IsValid : (k : Keyboard) → IsValid k → IsValid (keyboard_poll_event k).1
unfolding keyboard_poll_event poll_read poll_advance
poll-IsValid k v = ground arith

-- A poll reads what `pop` returns.
pub poll_read_lem : (k : Keyboard) → IsValid k → poll_read k ≡ (pop (contents k)).0
unfolding poll_read pop
poll_read_lem k v = elim (ℕ_discrete k.key_queue_tail k.key_queue_head) [
  | yes e ↦ let nothing : pending k ≡ 0 = omega (arith, v.head_in) in rw nothing (ground arith)
  | no ne ↦
      rw
        (window-uncons k.key_queue k.key_queue_tail (pending k)
          (omega (arith, v.head_in, v.tail_in)))
        (ground arith)
]
