-- ===== src/Joystick/Presets.antt =====
-- The preset buttons of src/joystick.c.
use mn_protozoa.Base.{ℕ, ◌+◌, ◌-◌, ◌<◌, ◌≡◌, ◌∙◌, refl, ap, true, false, List, arith, ltb}
use mn_protozoa.Base.Int.{pos}
use mn_protozoa.Base.Run.{done}
use mn_protozoa.Bitarray.{byte_at}
use mn_protozoa.Buffer.Defs.{Buffer}
use mn_protozoa.Buffer.Inv.{IsValid}
use mn_protozoa.Ccpacket.Flags.{cc_preset_store}
use mn_protozoa.Ccpacket.Modes
use mn_protozoa.Ccpacket.Packet.{Ccpacket, set_preset, get_preset_mode}
use mn_protozoa.Ccpacket.Preset.{get_preset_mode-set_preset, set_preset_split}
use mn_protozoa.Ccreader.Nodes.{Ccreader}
use mn_protozoa.Ccreader.Writers.{Sent}
use mn_protozoa.Joystick.Events.{
  jbutton_preset_1, jbutton_previous, with_packet, decode_pressed, moved_since_pressed,
  decode_preset_button, decode_event,
}
use mn_protozoa.Joystick.Read.{Events, do_read, joystick_do_read_total}

stored :
    (p : Ccpacket) (n : ℕ)
    → n < 4
    → (get_preset_mode (set_preset p cc_preset_store (pos (n + 1))) ≡ cc_preset_store)
      × ((set_preset p cc_preset_store (pos (n + 1))).preset ≡ pos (n + 1))
unfolding Modes.preset
stored p n small = (
  get_preset_mode-set_preset p cc_preset_store (pos (n + 1)) ∙ ground (arith, small),
  ap (λ q. q.preset) (set_preset_split p cc_preset_store (pos (n + 1))) ∙ ground (arith, small),
)

module _ {W : Type 0} where
  released :
      (rdr : Ccreader W) (mess : List ℕ) (n : ℕ)
      → get_preset_mode rdr.packet ≡ 0
      → byte_at mess 6 ≡ 1
      → byte_at mess 7 ≡ jbutton_preset_1 + n
      → n < 4
      → decode_pressed mess ≡ false
      → decode_event rdr mess
        ≡ (true, with_packet rdr (set_preset rdr.packet cc_preset_store (pos (n + 1))))
  unfolding decode_event decode_preset_button moved_since_pressed
  released rdr mess n cleared event button small up =
      let above : ltb (jbutton_preset_1 + n) jbutton_preset_1 ≡ false = ground arith in
      let below : ltb (jbutton_preset_1 + n) jbutton_previous ≡ true = ground (arith, small) in
      let number : jbutton_preset_1 + n - jbutton_preset_1 + 1 ≡ n + 1 = omega arith in
      rw (event, button, above, below, up, cleared, number) refl

  -- After any events of a valid receive buffer have been read and their packet processed, the release of the button of
  -- preset 1 to 4 is decoded as a command to store the preset of that number. This holds whether or not the
  -- joystick has moved since the button was pressed, if the press was read before.
  pub release_stores :
      {S : Type 0} (process : Ccreader W → S → Sent S) (rdr : Ccreader W) (rxbuf : Buffer) (s : S)
      → IsValid rxbuf
      → (mess : List ℕ) (n : ℕ) → byte_at mess 6 ≡ 1
      → byte_at mess 7 ≡ jbutton_preset_1 + n
      → n < 4
      → decode_pressed mess ≡ false
      → (r' : Events W) × (s' : S) × (do_read process rdr rxbuf s ≡ done (r', s'))
        × ((decode_event r'.reader mess).0 ≡ true)
        × (get_preset_mode (decode_event r'.reader mess).1.packet ≡ cc_preset_store)
        × ((decode_event r'.reader mess).1.packet.preset ≡ pos (n + 1))
  release_stores process rdr rxbuf s v mess n event button small up =
      let (r', s', ends, _, _, cleared) = joystick_do_read_total process rdr rxbuf s v in
      let e = released r'.reader mess n cleared event button small up in
      (
        r',
        s',
        ends,
        ap (λ o. o.0) e,
        ap (λ o. get_preset_mode o.1.packet) e ∙ (stored r'.reader.packet n small).0,
        ap (λ o. o.1.packet.preset) e ∙ (stored r'.reader.packet n small).1,
      )
