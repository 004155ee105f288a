-- ===== src/Keyboard/Delivery.antt =====
-- What the main loop receives from kernel/drivers/keyboard.c over any sequence of interrupts and
-- polls, and what an interrupt in the middle of a poll does.
use flare_os.Prelude.{
  ℕ, ◌≡◌, refl, List, [], ◌∷◌, ◌++◌, Option, none, some, arith, ap, sym, ◌∙◌, ltb, if◌then◌else◌,
  length,
}
use mathlib.Core.List.{append_assoc, append-nil}
use flare_os.Keyboard.{Keyboard, decode, keyboard_handle_irq, keyboard_poll_event, poll_read}
use flare_os.Keyboard.Ring.{
  IsValid, contents, push, push_option, pop, irq_refines, poll_refines, poll-IsValid, poll_read_lem,
}

pub data Event : Type 0 where
  irq : ℕ → Event
  poll : Event

-- A polled key goes to the shell.
deliver : Option ℕ → List ℕ → List ℕ
deliver none keys = keys
deliver (some key) keys = key ∷ keys

-- The keys that the polls of a history hand to the shell, and the driver after it.
pub run : Keyboard → List Event → List ℕ × Keyboard
run k [] = ([], k)
run k (irq scancode ∷ events) = run (keyboard_handle_irq k scancode) events
run k (poll ∷ events) =
    let (key, k') = keyboard_poll_event k in
    let (keys, end) = run k' events in (deliver key keys, end)

accept : List ℕ → Option ℕ → List ℕ → List ℕ
accept waiting none rest = rest
accept waiting (some key) rest = if ltb (length waiting) 31 then key ∷ rest else rest

-- The keys that the interrupts of a history decode while fewer than 31 wait, in their order.
pub accepted : Keyboard → List Event → List ℕ
accepted k [] = []
accepted k (irq scancode ∷ events) =
    accept (contents k) (decode k scancode).1 (accepted (keyboard_handle_irq k scancode) events)
accepted k (poll ∷ events) = accepted (keyboard_poll_event k).1 events

push-accept :
    (waiting : List ℕ) (key : Option ℕ) (rest : List ℕ)
    → waiting ++ accept waiting key rest ≡ push_option waiting key ++ rest
unfolding accept push_option push
push-accept waiting none rest = refl
push-accept waiting (some key) rest = ground (arith, append_assoc waiting (key ∷ []) rest)

pop-deliver :
    (waiting rest : List ℕ) → waiting ++ rest ≡ deliver (pop waiting).0 ((pop waiting).1 ++ rest)
unfolding pop deliver
pop-deliver [] rest = refl
pop-deliver (key ∷ waiting) rest = refl

deliver-append :
    (key : Option ℕ) (keys rest : List ℕ) → deliver key (keys ++ rest) ≡ deliver key keys ++ rest
unfolding deliver
deliver-append none keys rest = refl
deliver-append (some key) keys rest = refl

-- Over every history, from a valid ring, what was waiting at the start followed by what was accepted
-- is what the polls delivered followed by what waits at the end: no key is lost, repeated or
-- reordered.
pub run_delivers :
    (k : Keyboard) (events : List Event)
    → IsValid k
    → contents k ++ accepted k events ≡ (run k events).0 ++ contents (run k events).1
unfolding run accepted
run_delivers k [] v = append-nil (contents k)
run_delivers k (irq scancode ∷ events) v =
    let (v', after) = irq_refines k scancode v in
    push-accept (contents k) (decode k scancode).1 _
    ∙ ap (λ keys. keys ++ accepted (keyboard_handle_irq k scancode) events) (sym after)
    ∙ run_delivers (keyboard_handle_irq k scancode) events v'
run_delivers k (poll ∷ events) v =
    let (key, k') = keyboard_poll_event k in
    let popped : ◌≡◌ {A = Option ℕ × List ℕ} (key, contents k') (pop (contents k)) =
      poll_refines k v in
    pop-deliver (contents k) (accepted k' events)
    ∙ ap (λ (p : Option ℕ × List ℕ). deliver p.0 (p.1 ++ accepted k' events)) (sym popped)
    ∙ ap (deliver key) (run_delivers k' events (poll-IsValid k v))
    ∙ deliver-append key (run k' events).0 _

pop-push_option :
    (waiting : List ℕ) (new : Option ℕ) {key : ℕ}
    → (pop waiting).0 ≡ some key
    → (pop (push_option waiting new)).0 ≡ some key
unfolding pop push_option push
pop-push_option [] new h = cc
pop-push_option (x ∷ waiting) none h = h
pop-push_option (x ∷ waiting) (some y) h = ground arith

-- The key that a poll has read is still the oldest one after an interrupt that comes before the tail
-- moves on: the interrupt never writes the entry that is being read.
pub poll_read-irq :
    (k : Keyboard) (scancode : ℕ) {key : ℕ}
    → IsValid k
    → poll_read k ≡ some key
    → poll_read (keyboard_handle_irq k scancode) ≡ some key
poll_read-irq k scancode v e =
    let (v', after) = irq_refines k scancode v in
    poll_read_lem (keyboard_handle_irq k scancode) v'
    ∙ rw after (pop-push_option (contents k) (decode k scancode).1 (sym (poll_read_lem k v) ∙ e))
