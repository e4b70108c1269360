-- ===== src/Mqttc/Store.antt =====
-- The trait `Store` of mqttc/src/store.rs, and `LocalStorage` of src/client/command/mod.rs.
use rust_mq.Base.{◌==◌, ◌≡◌, refl, ap, true, arith, Option, none, some, List}
use rust_mq.Base.Maps.{lookup, insert, remove, lookup-insert, lookup-remove}
use rust_mq.Outcome.{done, failed, panicked, Action}
use rust_mq.Mqtt3.PacketIdentifier.{PacketIdentifier}
use rust_mq.Mqtt3.Message.{Message}
use rust_mq.Mqttc.Errors.{StoreError, not_found}

-- `S` is the state behind a `Box<Store + Send>`.
pub record Store (S : Type 0) : Type 0 where
  pub put : Message → Action StoreError S (Unit {0})
  pub get : PacketIdentifier → Action StoreError S Message
  pub delete : PacketIdentifier → Action StoreError S (Unit {0})

-- The `BTreeMap` of messages by their identifiers.
abbrev pub LocalStorage : Type 0
LocalStorage = List (PacketIdentifier × Message)

abbrev pub put_at : Option PacketIdentifier → Message → Action StoreError LocalStorage (Unit {0})
put_at none message m = panicked
put_at (some pid) message m = done tt (insert ◌==◌ pid message m)

abbrev pub get_at : PacketIdentifier → Option Message → Action StoreError LocalStorage Message
get_at pid none m = failed (not_found pid) m
get_at pid (some message) m = done message m

unfoldable pub local_storage : Store LocalStorage
unfolding insert lookup remove
local_storage = record {
  put = λ message m. put_at message.pid message m;
  get = λ pid m. get_at pid (lookup ◌==◌ pid m) m;
  delete = λ pid m. done tt (remove ◌==◌ pid m);
}

pub same_pid : (pid : PacketIdentifier) → (pid == pid) ≡ true
same_pid pid = ground arith

-- A message that is put under its identifier is the one that is got by it, and once it is deleted
-- the identifier is not found.
pub local_storage-put :
    (m : Message) (pid : PacketIdentifier) (s : LocalStorage)
    → m.pid ≡ some pid
    → (s₁ s₂ : LocalStorage) × (local_storage.put m s ≡ done tt s₁)
      × (local_storage.get pid s₁ ≡ done m s₁)
      × (local_storage.delete pid s₁ ≡ done tt s₂)
      × (local_storage.get pid s₂ ≡ failed (not_found pid) s₂)
unfolding local_storage
local_storage-put m pid s e =
    let s₁ = insert ◌==◌ pid m s in
    (
      s₁,
      remove ◌==◌ pid s₁,
      rw e refl,
      ap (λ o. get_at pid o s₁) (lookup-insert ◌==◌ pid m s (same_pid pid)),
      refl,
      ap (λ o. get_at pid o (remove ◌==◌ pid s₁)) (lookup-remove ◌==◌ pid s₁),
    )
