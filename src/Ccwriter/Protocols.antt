-- ===== src/Ccwriter/Protocols.antt =====
-- The protocols of a writer: `ccwriter_set_protocol` and `ccwriter_init` of src/ccwriter.c. The name of
-- a protocol is what `strcasecmp` finds of it: `is c` is whether the name equals that of `c`. What
-- `malloc` answers is a parameter, and so are `axis_do_write` and `channel_is_open`.
use mn_protozoa.Base.{ℕ, bit_or, Bool, Option, none, some, if◌then◌else◌}
use mn_protozoa.Buffer.Defs.{Buffer}
use mn_protozoa.Timeval.{Timeval}
use mn_protozoa.Ccpacket.Packet.{Ccpacket}
use mn_protozoa.Ccwriter.Written.{Written}
use mn_protozoa.Ccwriter.Writer.{Ccwriter, init_loop}
use mn_protozoa.Defer.Engine.{DeferredPkt}
use mn_protozoa.Infinova.Write as Infinova
use mn_protozoa.Manchester.Codes as Manchester_codes
use mn_protozoa.Manchester.Encode as Manchester
use mn_protozoa.PelcoD.Bits as PelcoD_bits
use mn_protozoa.PelcoD.Encode as PelcoD
use mn_protozoa.PelcoP.Bits as PelcoP_bits
use mn_protozoa.PelcoP.Encode as PelcoP
use mn_protozoa.Vicon.Bits as Vicon_bits
use mn_protozoa.Vicon.Encode as Vicon

pub data WriteProtocol : Type 0 where
  manchester infinova_d pelco_d pelco_p vicon axis : WriteProtocol

-- `FLAG_RESP_REQUIRED` of src/channel.h
abbrev flag_resp_required : ℕ
flag_resp_required = 8

-- What `ccwriter_set_protocol` sets for a protocol: the callback, the times, and how many receivers
-- there are.
pub record Settings : Type 0 where
  pub callback : Buffer → Ccpacket → Written
  pub gaptime : ℕ
  pub timeout : ℕ
  pub max_address : ℕ

module _ (is_open : Bool) (axis_do_write : Buffer → Ccpacket → Written) where
  abbrev pub settings : WriteProtocol → Settings
  settings manchester = record {
    callback = Manchester.do_write;
    gaptime = 0;
    timeout = 80;
    max_address = Manchester_codes.max_address;
  }
  settings infinova_d = record {
    callback = Infinova.do_write is_open;
    gaptime = 80;
    timeout = 15000;
    max_address = PelcoD_bits.max_address;
  }
  settings pelco_d = record {
    callback = PelcoD.do_write;
    gaptime = 80;
    timeout = 15000;
    max_address = PelcoD_bits.max_address;
  }
  settings pelco_p = record {
    callback = PelcoP.do_write;
    gaptime = 80;
    timeout = 15000;
    max_address = PelcoP_bits.max_address;
  }
  settings vicon = record {
    callback = Vicon.do_write;
    gaptime = 80;
    timeout = 15000;
    max_address = Vicon_bits.max_address;
  }
  settings axis = record {
    callback = axis_do_write;
    gaptime = 250;
    timeout = 30000;
    max_address = 1;
  }

  -- The chain of tests of `ccwriter_set_protocol`.
  unfoldable pub find_protocol : (is : WriteProtocol → Bool) → Option WriteProtocol
  find_protocol is =
      if is manchester
      then some manchester
      else if is infinova_d
      then some infinova_d
      else if is pelco_d
      then some pelco_d
      else if is pelco_p
      then some pelco_p
      else if is vicon
      then some vicon
      else if is axis
      then some axis
      else none

  -- `ccwriter_set_receivers`: `malloc` finds room for that many packets, or none.
  unfoldable pub set_receivers :
      (now : ℕ → Timeval)
      → (malloc : ℕ → Option ℕ) → (number : ℕ) → Settings
      → (ℕ → DeferredPkt)
      → Option (Ccwriter × (ℕ → DeferredPkt))
  unfolding init_loop
  set_receivers now malloc number s pkts = elim (malloc s.max_address) [
    | none ↦ none
    | some deferred ↦ some (
      record {
        do_write = s.callback;
        deferred = deferred;
        n_rcv = s.max_address;
        gaptime = s.gaptime;
        timeout = s.timeout;
      },
      init_loop now number deferred s.max_address pkts,
    )
  ]

  -- The flags of the channel: an axis channel needs a response to each request.
  abbrev pub set_flags : WriteProtocol → ℕ → ℕ
  set_flags axis flags = bit_or flags flag_resp_required
  set_flags _ flags = flags

  -- `ccwriter_set_protocol`, in the memory `pkts`; `flags` is `chn->flags`.
  unfoldable pub set_protocol :
      (now : ℕ → Timeval)
      → (malloc : ℕ → Option ℕ) → (number : ℕ) → (is : WriteProtocol → Bool) → (ℕ → DeferredPkt)
      → (flags : ℕ) → ℕ × Option (Ccwriter × (ℕ → DeferredPkt))
  unfolding find_protocol set_receivers
  set_protocol now malloc number is pkts flags = elim (find_protocol is) [
    | none ↦ (flags, none)
    | some c ↦ (set_flags c flags, set_receivers now malloc number (settings c) pkts)
  ]

  -- `ccwriter_init`; `auth_copied` is whether there was memory for the token, if there is one.
  unfoldable pub init :
      (now : ℕ → Timeval)
      → (malloc : ℕ → Option ℕ) → (number : ℕ) → (auth_copied : Bool) (is : WriteProtocol → Bool)
      → (ℕ → DeferredPkt)
      → (flags : ℕ) → ℕ × Option (Ccwriter × (ℕ → DeferredPkt))
  unfolding set_protocol
  init now malloc number auth_copied is pkts flags =
      if auth_copied then set_protocol now malloc number is pkts flags else (flags, none)
