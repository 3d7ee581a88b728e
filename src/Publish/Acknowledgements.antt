-- ===== src/Publish/Acknowledgements.antt =====
-- A publisher is told that a block is persisted only once the persistence plugin has said so.
use rock_node.Base.{
  ℕ, ◌≡◌, refl, inl, inr, Bool, true, false, List, [], ◌∷◌, ◌++◌, map, arith, ◌==◌, ◌||◌, ◌&&◌,
  Bool-cases, Option-cases,
}
use rock_node.Base.Signed.{as_u64}
use rock_node.Block.{Bytes}
use rock_node.Publish.State.{
  bad_block_proof_code, Response, acknowledgement, skip_block, resend_block, end_stream,
  SharedState, broadcast, others, send,
}
use rock_node.Publish.Session.{
  Session, World, BusEvent, verification_failed, persisted, handle_end_error,
}
use rock_node.Publish.Completion.{
  Outcome, success, failure, timeout, await_outcome, conclude, settle, complete_block,
}

-- The message acknowledges block `n`.
abbrev pub acks : ℕ → Response → Bool
acks n (acknowledgement m) = m == n
acks n (skip_block m) = false
acks n (resend_block m) = false
acks n (end_stream c m) = false

-- Some message acknowledges block `n`.
abbrev pub acknowledged : ℕ → List (ℕ × Response) → Bool
acknowledged n [] = false
acknowledged n ((id, r) ∷ rest) = acks n r || acknowledged n rest

-- The persistence plugin reports the block under the key.
abbrev pub reports : ℕ → ℕ → List BusEvent → Bool
reports n key [] = false
reports n key (persisted m k ∷ rest) = (m == n && k == key) || reports n key rest
reports n key (verification_failed m k ∷ rest) = reports n key rest

await-success :
    (n key : ℕ) (events : List BusEvent)
    → await_outcome n key events ≡ success
    → reports n key events ≡ true
unfolding await_outcome
await-success n key [] h = cc
await-success n key (persisted m k ∷ rest) h = ground (arith, await-success n key rest)
await-success n key (verification_failed m k ∷ rest) h = ground (arith, await-success n key rest)

acknowledged-append :
    (n : ℕ) (xs ys : List (ℕ × Response))
    → acknowledged n (xs ++ ys) ≡ (acknowledged n xs || acknowledged n ys)
acknowledged-append n [] ys = refl
acknowledged-append n ((id, r) ∷ xs) ys = ground (arith, acknowledged-append n xs ys)

-- A broadcast of a message that acknowledges nothing.
acknowledged-broadcast :
    (n : ℕ) (ids : List ℕ) (r : Response)
    → acks n r ≡ false
    → acknowledged n (map (λ id. (id, r)) ids) ≡ false
acknowledged-broadcast n [] r h = refl
acknowledged-broadcast n (id ∷ ids) r h = ground (arith, acknowledged-broadcast n ids r h)

acknowledged-all :
    (n m : ℕ) (ids : List ℕ)
    → acknowledged n (map (λ id. (id, acknowledgement m)) ids) ≡ true
    → m ≡ n
acknowledged-all n m [] h = cc
acknowledged-all n m (id ∷ ids) h = ground (arith, acknowledged-all n m ids)

settle-acknowledged :
    (r : Outcome) (n m : ℕ) (s : Session) (shared : SharedState)
    → acknowledged m (settle r n s shared).0.1.sent ≡ true
    → acknowledged m shared.sent ≡ false
    → (r ≡ success) × (n ≡ m)
unfolding settle conclude handle_end_error broadcast send
settle-acknowledged success n m s shared h k = ground (
  arith,
  acknowledged-append m shared.sent (map (λ id. (id, acknowledgement n)) shared.active_sessions),
  acknowledged-all m n shared.active_sessions,
)
settle-acknowledged failure n m s shared h k =
    let ended =
      shared.sent
      ++ ((s.id, end_stream bad_block_proof_code (as_u64 s.current_block_number)) ∷ []) in
    ground (
      arith,
      acknowledged-append m ended
          (map (λ id. (id, resend_block n)) (others s.id shared.active_sessions)),
      acknowledged-append m shared.sent
          ((s.id, end_stream bad_block_proof_code (as_u64 s.current_block_number)) ∷ []),
      acknowledged-broadcast m (others s.id shared.active_sessions) (resend_block n),
    )
settle-acknowledged timeout n m s shared h k = ground (
  arith,
  acknowledged-append m shared.sent
      (map (λ id. (id, resend_block n)) (others s.id shared.active_sessions)),
  acknowledged-broadcast m (others s.id shared.active_sessions) (resend_block n),
)

-- The shared state when the block's number, key and contents have gone to verification.
abbrev pub submit : World → Session → Bytes → SharedState → SharedState
submit w s contents shared = record shared {
  submitted =
      shared.submitted
      ++ (record {
        block_number = as_u64 s.current_block_number;
        cache_key = w.cache_key;
        contents = contents;
      }
          ∷ []);
}

-- If completing a block acknowledges block `m`, which neither the session nor the others while it
-- waited had acknowledged, then `m` is the session's block, and the persistence plugin has reported
-- it under the key that it was submitted with.
pub complete_block-acknowledged :
    (w : World) (s : Session) (shared : SharedState) (m : ℕ)
    → acknowledged m (complete_block w s shared).0.1.sent ≡ true
    → acknowledged m shared.sent ≡ false
    → ((contents : Bytes)
        → acknowledged m (w.during_wait (submit w s contents shared)).sent ≡ false)
    → (as_u64 s.current_block_number ≡ m)
      × (reports (as_u64 s.current_block_number) w.cache_key w.events ≡ true)
unfolding complete_block
complete_block-acknowledged w s shared m h k quiet = elim (Option-cases (w.encode s.item_buffer)) [
  | inl e ↦
      let sent : acknowledged m shared.sent ≡ true = rw (e, complete_block) at h in ground arith
  | inr (contents, e) ↦ elim (Bool-cases w.verification_open) [
    | inr closed ↦
        let sent : acknowledged m shared.sent ≡ true = rw (e, complete_block, closed) at h in
        ground arith
    | inl opened ↦
        let n = as_u64 s.current_block_number in
        let (won, same) =
          settle-acknowledged (await_outcome n w.cache_key w.events) n m _ _
            (rw (e, complete_block, opened) at h) (quiet contents) in
        (same, await-success n w.cache_key w.events won)
  ]
]
