-- ===== src/Ccreader/Nodes.antt =====
-- `struct ccnode` of src/ccreader.h and its functions in src/ccreader.c. What `sscanf` converts from
-- a string is a parameter: the integers at its start, of which the code asks for up to two.
use mn_protozoa.Base.{ℕ, ◌||◌, List, [], ◌∷◌, if◌then◌else◌}
use mn_protozoa.Base.Int.{ℤ, pos, ◌+ℤ◌, ◌-ℤ◌, ltb_ℤ}
use mn_protozoa.Ccpacket.Packet.{Ccpacket, set_receiver}

-- A node of the writer list; the list itself is a `List`.
pub record Ccnode (W : Type 0) : Type 0 where
  pub writer : W
  pub range_first : ℤ
  pub range_last : ℤ
  pub shift : ℤ

-- `struct ccreader` less its callback, its name and its log.
pub record Ccreader (W : Type 0) : Type 0 where
  pub packet : Ccpacket
  pub timeout : ℕ
  pub flags : ℕ
  pub head : List (Ccnode W)

module _ {W : Type 0} where
  -- `ccnode_init`, with the writer that `ccreader_add_writer` puts in next.
  unfoldable pub node_init : W → Ccnode W
  node_init wtr = record { writer = wtr; range_first = pos 1; range_last = pos 1024; shift = pos 0 }

  -- `ccnode_set_range`. The range `1-16` is read as the integers 1 and -16.
  unfoldable pub set_range : Ccnode W → List ℤ → Ccnode W
  set_range node (first ∷ last ∷ _) = record node {
    range_first = first;
    range_last = pos 0 -ℤ last;
  }
  set_range node (first ∷ []) = record node { range_first = first; range_last = first }
  set_range node [] = node

  -- `ccnode_set_shift`
  unfoldable pub set_shift : Ccnode W → List ℤ → Ccnode W
  set_shift node (shift ∷ _) = record node { shift = shift }
  set_shift node [] = node

  -- `ccnode_get_receiver`: 0 drops the packet.
  unfoldable pub get_receiver : Ccnode W → ℤ → ℤ
  get_receiver node receiver =
      if ltb_ℤ receiver node.range_first || ltb_ℤ node.range_last receiver
      then pos 0
      else let shifted = receiver +ℤ node.shift in if ltb_ℤ shifted (pos 0) then pos 0 else shifted

  -- `ccreader_previous_camera`
  unfoldable pub previous_camera : Ccreader W → Ccreader W
  previous_camera rdr =
      let receiver = rdr.packet.receiver in
      if ltb_ℤ (pos 0) receiver
      then record rdr { packet = set_receiver rdr.packet (receiver -ℤ pos 1) }
      else rdr

  -- `ccreader_next_camera`
  unfoldable pub next_camera : Ccreader W → Ccreader W
  next_camera rdr =
      let receiver = rdr.packet.receiver in
      if ltb_ℤ receiver (pos 1024)
      then record rdr { packet = set_receiver rdr.packet (receiver +ℤ pos 1) }
      else rdr

  -- `ccreader_add_writer`
  unfoldable pub add_writer : Ccreader W → W → (range shift : List ℤ) → Ccreader W
  unfolding node_init set_range set_shift
  add_writer rdr wtr range shift =
      let node = set_shift (set_range (node_init wtr) range) shift in
      record rdr { head = node ∷ rdr.head; packet = set_receiver rdr.packet node.range_first }
