-- ===== src/Rtl8139/Sending.antt =====
-- The frames that kernel/drivers/rtl8139.c sends, and the memory that they take.
use flare_os.Prelude.{
  ℕ, ◌+◌, ◌-◌, ◌^◌, ◌≤◌, ◌<◌, ◌≡◌, refl, ap, ◌∙◌, true, false, not, ◌||◌, List, some, arith, ltb,
  length, replicate, length-append, length-replicate,
}
use flare_os.Memory.{Heap, heap_base, round_up, kmalloc}
use flare_os.Rtl8139.{Bus, Nic, padded, rtl8139_send_packet}

length-padded : (bytes : List ℕ) → length (padded bytes) ≡ length bytes + (60 - length bytes)
length-padded bytes = omega (
  arith,
  length-append bytes (replicate (60 - length bytes) 0),
  length-replicate {A = ℕ} (60 - length bytes) 0,
)

module _ {D : Type 0} (bus : Bus D) where
  -- The frame of a send that is tried, and the heap after it.
  tried :
      (n : Nic) (h : Heap) (d : D) (bytes : List ℕ)
      → n.nic_found ≡ true
      → 14 ≤ length bytes
      → length bytes ≤ 1518
      → ((rtl8139_send_packet bus n h d bytes).frame
          ≡ some ((kmalloc h (length bytes + 16)).0, padded bytes))
        × ((rtl8139_send_packet bus n h d bytes).heap ≡ (kmalloc h (length bytes + 16)).1)
  unfolding rtl8139_send_packet
  tried n h d bytes found low high =
      let goes_on : (not n.nic_found || (ltb (length bytes) 14 || ltb 1518 (length bytes)))
          ≡ false =
        ground (arith, found) in
      rw goes_on (refl, refl)

  -- With a card, on a heap below 2 GiB: a frame of 33 to 1518 bytes is filled up to 60 bytes, and lies in
  -- front of whatever memory is handed out next; it is written to the old end of the heap.
  rtl8139_send_packet-inside :
      (n : Nic) (h : Heap) (d : D) (bytes : List ℕ) (size : ℕ)
      → n.nic_found ≡ true
      → 33 ≤ length bytes
      → length bytes ≤ 1518
      → h.heap_offset < 2 ^ 31
      → ((rtl8139_send_packet bus n h d bytes).frame
          ≡ some (heap_base + h.heap_offset, padded bytes))
        × (60 ≤ length (padded bytes))
        × (heap_base + h.heap_offset + length (padded bytes)
            ≤ (kmalloc (rtl8139_send_packet bus n h d bytes).heap size).0)
  unfolding kmalloc round_up
  rtl8139_send_packet-inside n h d bytes size found low high small =
      let (frame, heap) = tried n h d bytes found (omega (arith, low)) high in
      let next = ap (λ (k : Heap). (kmalloc k size).0) heap in
      let grown = length-padded bytes in
      (
        frame ∙ ap (λ (at : ℕ). some (at, padded bytes)) (omega (arith, small)),
        omega (arith, grown),
        omega (arith, next, grown, low, high, small),
      )

  -- With a card, on a heap below 2 GiB: a frame of 14 to 32 bytes is filled up beyond the memory that was
  -- requested for it, into what is handed out next.
  pub short_frame_overruns :
      (n : Nic) (h : Heap) (d : D) (bytes : List ℕ) (size : ℕ)
      → n.nic_found ≡ true
      → 14 ≤ length bytes
      → length bytes ≤ 32
      → h.heap_offset < 2 ^ 31
      → ((rtl8139_send_packet bus n h d bytes).frame
          ≡ some (heap_base + h.heap_offset, padded bytes))
        × ((kmalloc (rtl8139_send_packet bus n h d bytes).heap size).0
            < heap_base + h.heap_offset + length (padded bytes))
  unfolding kmalloc round_up
  short_frame_overruns n h d bytes size found low high small =
      let (frame, heap) = tried n h d bytes found low (omega (arith, high)) in
      let next = ap (λ (k : Heap). (kmalloc k size).0) heap in
      let grown = length-padded bytes in
      (
        frame ∙ ap (λ (at : ℕ). some (at, padded bytes)) (omega (arith, small)),
        omega (arith, next, grown, low, high, small),
      )
