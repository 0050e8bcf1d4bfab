-- ===== src/Bootnode/Keys.antt =====
-- bin/client/src/lib.rs and bin/bootnode/src/main.rs: the key that one start writes and the next reads.
use gozara.Base.{
  ℕ, ◌≡◌, refl, String, List, Bool, true, none, some, ok, string_eq, IfOk-ok, IfOk-holds,
}
use gozara.Base.Maps.{lookup, lookup-insert}
use gozara.Peyk.Behaviour.{Libp2p}
use gozara.Client.Network.{write, local_key}
use gozara.Bootnode.{started, bootnode_key}

module _ {Key : Type 0} (libp2p : Libp2p Key) where
  open libp2p use {to_protobuf_encoding, from_protobuf_encoding, from-to_protobuf_encoding}

  -- The files that hold a key.
  abbrev Holds : Key → List (String × List ℕ) → Type 0
  Holds key files = lookup "./key.secret" files ≡ some (to_protobuf_encoding key)

  write-Holds :
      (key : Key) (files : List (String × List ℕ))
      → Holds key (write true "./key.secret" (to_protobuf_encoding key) files)
  write-Holds key files =
      lookup-insert "./key.secret" "./key.secret" (to_protobuf_encoding key) files

  module _ (new_key : Key) (can_write : Bool) where
    read_again :
        (key : Key) (files : List (String × List ℕ))
        → Holds key files
        → (local_key libp2p new_key can_write (some "./key.secret") files ≡ ok (key, files))
          × (bootnode_key libp2p new_key can_write (some "./key.secret") files
              ≡ started (key, files))
    unfolding local_key bootnode_key
    read_again key files h = (
      rw h (rw (from-to_protobuf_encoding key) refl),
      rw (h, bootnode_key) (rw (from-to_protobuf_encoding key) refl),
    )

  -- After a start of the client without a key file that can write its key, a start of the
  -- client or of the bootnode with the key file `./key.secret` has the key that the first
  -- start made.
  pub local_key-restart :
      (first next key : Key) (can_write : Bool) (files files' : List (String × List ℕ))
      → local_key libp2p first true none files ≡ ok (key, files')
      → (local_key libp2p next can_write (some "./key.secret") files' ≡ ok (key, files'))
        × (bootnode_key libp2p next can_write (some "./key.secret") files' ≡ started (key, files'))
  unfolding local_key
  local_key-restart first next key can_write files files' h = read_again next can_write key files' (
      IfOk-holds (λ p. Holds p.0 p.1) _ (key, files') h
        (IfOk-ok (λ p. Holds p.0 p.1) (local_key libp2p first true none files) _ refl
          (write-Holds first files)))
