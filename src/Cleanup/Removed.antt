-- ===== src/Cleanup/Removed.antt =====
-- The removal of a version, and a cleanup after it.
use benji.Prelude.{
  ℕ, ◌==◌, ◌≡◌, ◌<◌, ◌∙◌, Bool, ◌&&◌, not, true, some, List, [], ◌∷◌, arith, any, any-append,
  filter, Bool-cases, inl, inr, ==_refl,
}
use benji.Storage.Uid.{BlockUid, maybe_uid_eq}
use benji.Database.{Version, Block, Database, remove, deleted_of}
use benji.Cleanup.{State, is_used, cleanup, has_object}
use benji.Cleanup.Safe.{cleanup_safe}
use benji.Cleanup.Complete.{is_due, AreOfOneStorage, cleanup_complete}

-- The version has a block with the uid.
abbrev pub refers : Version → BlockUid → Block → Bool
refers v uid b = b.version_id == v.id && maybe_uid_eq b.uid uid

deleted_of-due :
    (v : Version) (cut_off now : ℕ) (uid : BlockUid) (bs : List Block)
    → now < cut_off
    → any (refers v uid) bs ≡ true
    → any
        (is_due cut_off v.storage_id uid)
        (deleted_of v now (filter (λ b. b.version_id == v.id) bs))
      ≡ true
deleted_of-due v cut_off now uid [] past h = absurd (ground arith)
deleted_of-due v cut_off now uid (b ∷ bs) past h =
    let own = ==_refl v.storage_id in
    elim (Bool-cases (refers v uid b)) [
      | inl e ↦ ground (arith, own, e)
      | inr e ↦
          let rest = deleted_of-due v cut_off now uid bs past (ground arith) in
          ground (arith, rest, own, e)
    ]

-- The state of a cleanup that begins with the tables and with objects.
abbrev pub cleaning : Database → List (ℕ × BlockUid) → State
cleaning db objects = record {
  blocks = db.blocks;
  deleted_blocks = db.deleted_blocks;
  objects = objects;
}

-- After the removal of a version, and a cleanup when that is long enough ago, an object of one of its
-- blocks is in its storage if and only if it was there, and a block of another version refers to it,
-- where uids that are listed for deletion twice are of one storage.
pub removed_reclaimed :
    (storage_of : BlockUid → ℕ) (v : Version) (now limit cut_off fuel : ℕ) (db : Database)
    (objects : List (ℕ × BlockUid)) (t : State) (uid : BlockUid)
    → 0 < limit
    → now < cut_off
    → AreOfOneStorage storage_of (remove v now db).deleted_blocks
    → cleanup limit cut_off fuel (cleaning (remove v now db) objects) ≡ some t
    → any (refers v uid) db.blocks ≡ true
    → has_object v.storage_id uid t.objects ≡ (
        has_object v.storage_id uid objects
        && is_used (filter (λ b. not (b.version_id == v.id)) db.blocks) uid)
unfolding remove
removed_reclaimed storage_of v now limit cut_off fuel db objects t uid pos past of_one e listed =
    let left = filter (λ b. not (b.version_id == v.id)) db.blocks in
    let after = remove v now db in
    let due : any (is_due cut_off v.storage_id uid) after.deleted_blocks ≡ true =
      any-append (is_due cut_off v.storage_id uid) db.deleted_blocks
        (deleted_of v now (filter (λ b. b.version_id == v.id) db.blocks))
      ∙ (let new = deleted_of-due v cut_off now uid db.blocks past listed in ground (arith, new)) in
    elim (Bool-cases (is_used left uid)) [
      | inl used ↦
          cleanup_safe limit cut_off fuel (cleaning after objects) t v.storage_id uid e used
          ∙ rw used (ground arith)
      | inr unused ↦
          cleanup_complete storage_of limit cut_off fuel (cleaning after objects) t v.storage_id uid
            pos of_one e due unused
          ∙ rw unused (ground arith)
    ]
