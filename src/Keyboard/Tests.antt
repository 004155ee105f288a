-- ===== src/Keyboard/Tests.antt =====
-- Runs of kernel/drivers/keyboard.c, and the theorems at concrete histories.
use flare_os.Prelude.{◌≡◌, ◌++◌, refl, [], ◌∷◌, List, some, true, arith}
use flare_os.Keyboard.{
  Keyboard, initial, decode, translate, modify, keymap, ext_key, enqueue, keyboard_handle_irq,
  keyboard_poll_event, poll_read,
}
use flare_os.Keyboard.Ring.{IsValid, contents, pop, push_option, irq_refines, poll_refines}
use flare_os.Keyboard.Delivery.{Event, irq, poll, run, accepted, run_delivers, poll_read-irq}
use flare_os.Keyboard.Modifiers.{right_ctrl_loses_key}

-- Shift and 'a', then 's' with the control key.
abbrev history : List Event
history = irq 0x2A ∷ irq 0x1E ∷ irq 0xAA ∷ irq 0x1D ∷ irq 0x1F ∷ poll ∷ poll ∷ poll ∷ []

abbrev after_a : Keyboard
after_a = keyboard_handle_irq initial 0x1E

initial-IsValid : IsValid initial
unfolding initial
initial-IsValid = omega arith

after_a_reads : poll_read after_a ≡ some b'a'
unfolding poll_read keyboard_handle_irq decode translate modify keymap enqueue initial
after_a_reads = refl

irq_refines_example :
    IsValid after_a × (contents after_a ≡ push_option (contents initial) (decode initial 0x1E).1)
irq_refines_example = irq_refines initial 0x1E initial-IsValid

poll_refines_example :
    let (key, k') = keyboard_poll_event initial in (key, contents k') ≡ pop (contents initial)
poll_refines_example = poll_refines initial initial-IsValid

run_delivers_example :
    contents initial ++ accepted initial history
    ≡ (run initial history).0 ++ contents (run initial history).1
run_delivers_example = run_delivers initial history initial-IsValid

poll_read-irq_example : poll_read (keyboard_handle_irq after_a 0x30) ≡ some b'a'
poll_read-irq_example =
    poll_read-irq after_a 0x30 (irq_refines initial 0x1E initial-IsValid).0 after_a_reads

right_ctrl_loses_key_example :
    let held = keyboard_handle_irq (keyboard_handle_irq initial 0xE0) 0x1D in
    (held.ctrl ≡ true) × (contents (keyboard_handle_irq held 0x1F) ≡ contents initial)
unfolding ext_key
right_ctrl_loses_key_example = right_ctrl_loses_key initial 0x1F (omega arith) refl refl
