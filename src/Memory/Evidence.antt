-- ===== src/Memory/Evidence.antt =====
-- The head of a tenant's audit chain as evidence of the whole chain (src/tenantvault/store.py,
-- `append_audit` and `audit_head`).
use tenantvault_zero_trust_r.Base.{
  ℕ, ◌≡◌, refl, ap, sym, ◌∙◌, String, subst, Option, some, List, [], ◌∷◌, arith,
}
use tenantvault_zero_trust_r.Base.Int.{ℤ, pos}
use tenantvault_zero_trust_r.Base.Lists.{length}
use tenantvault_zero_trust_r.Json.{Json, Fields, str, int, obj, lookup}
use tenantvault_zero_trust_r.Platform.{Platform, Bytes, Uuid, Time}
use tenantvault_zero_trust_r.Security.{Principal}
use tenantvault_zero_trust_r.Models.{AuditEvent}
use tenantvault_zero_trust_r.Store.{AuditEntry, AuditDraw}
use tenantvault_zero_trust_r.Memory.{genesis, head_of, audit_json, new_event, or_none}
use tenantvault_zero_trust_r.Memory.Integrity.{IsChain, last_hash, genesis-head_of}

module _ {F : Type 0} (P : Platform F) where
  -- SHA-256 as an ideal hash, without collisions, UTF-8 and JSON: two objects with the same
  -- canonical text have the same texts and integers under each key. UUIDs and times are told apart by
  -- their texts.
  pub record IsCanonical : Type 0 where
    pub hashes : (b c : Bytes) → P.sha256_hex b ≡ P.sha256_hex c → b ≡ c
    pub encodes : (s t : String) → P.encode s ≡ P.encode t → s ≡ t
    pub dumps_texts :
        (fs gs : Fields F) (k s : String)
        → P.dumps_sorted (obj fs) ≡ P.dumps_sorted (obj gs)
        → lookup k fs ≡ some (str s)
        → lookup k gs ≡ some (str s)
    pub dumps_integers :
        (fs gs : Fields F) (k : String) (n : ℤ)
        → P.dumps_sorted (obj fs) ≡ P.dumps_sorted (obj gs)
        → lookup k fs ≡ some (int n)
        → lookup k gs ≡ some (int n)
    pub uuids : (i j : Uuid) → P.uuid_str i ≡ P.uuid_str j → i ≡ j
    pub times : (t u : Time) → P.isoformat t ≡ P.isoformat u → t ≡ u

-- Two events agree on all that their hashes cover but the detail.
pub record SameEntry (e f : AuditEvent) : Type 0 where
  pub actor_id : e.actor_id ≡ f.actor_id
  pub action : e.action ≡ f.action
  pub request_id : e.request_id ≡ f.request_id
  pub result_count : e.result_count ≡ f.result_count
  pub previous_hash : e.previous_hash ≡ f.previous_hash
  pub event_hash : e.event_hash ≡ f.event_hash
  pub created_at : e.created_at ≡ f.created_at

abbrev pub SameEntries : List AuditEvent → List AuditEvent → Type 0
SameEntries [] [] = Unit
SameEntries (e ∷ es) (f ∷ fs) = SameEntry e f × SameEntries es fs
SameEntries _ _ = ⊥

module _ {F : Type 0} (P : Platform F) (law : IsCanonical P) where
  text_at :
      (fs gs : Fields F) (k s t : String)
      → P.dumps_sorted (obj fs) ≡ P.dumps_sorted (obj gs)
      → lookup k fs ≡ some (str s)
      → lookup k gs ≡ some (str t)
      → s ≡ t
  text_at fs gs k s t same left right =
      let both : ◌≡◌ {A = Option (Json F)} (some (str s)) (some (str t)) =
        sym (law.dumps_texts fs gs k s same left) ∙ right in
      cc

  count_at :
      (fs gs : Fields F) (k : String) (m n : ℕ)
      → P.dumps_sorted (obj fs) ≡ P.dumps_sorted (obj gs)
      → lookup k fs ≡ some (int (pos m))
      → lookup k gs ≡ some (int (pos n))
      → m ≡ n
  count_at fs gs k m n same left right =
      let both : ◌≡◌ {A = Option (Json F)} (some (int (pos m))) (some (int (pos n))) =
        sym (law.dumps_integers fs gs k (pos m) same left) ∙ right in
      cc

  -- What the hash of an event covers.
  covers :
      (p q : Principal) (a b : AuditEntry F) (x y : String) (d f : AuditDraw)
      → (new_event P p a x d).event_hash ≡ (new_event P q b y f).event_hash
      → (x ≡ y) × SameEntry (new_event P p a x d) (new_event P q b y f)
  unfolding new_event audit_json
  covers p q a b x y d f h =
      let same : P.dumps_sorted (audit_json P p a x d) ≡ P.dumps_sorted (audit_json P q b y f) =
        law.encodes _ _ (law.hashes _ _ h) in
      let prior = text_at _ _ "previous_hash" x y same refl refl in
      (
        prior,
        record {
          actor_id = text_at _ _ "actor" p.subject q.subject same refl refl;
          action = text_at _ _ "action" a.action b.action same refl refl;
          request_id = law.uuids _ _ (text_at _ _ "request_id" _ _ same refl refl);
          result_count = count_at _ _ "result_count" a.result_count b.result_count same refl refl;
          previous_hash = ap or_none prior;
          event_hash = h;
          created_at = law.times _ _ (text_at _ _ "created_at" _ _ same refl refl);
        },
      )

  chains :
      (j : Uuid) (x y : String) (es fs : List AuditEvent)
      → IsChain P j x es
      → IsChain P j y fs
      → length es ≡ length fs
      → last_hash P x es ≡ last_hash P y fs
      → (x ≡ y) × SameEntries es fs
  chains j x y [] [] h k size same = (same, tt)
  chains j x y (e ∷ es) (f ∷ fs) h k size same =
      let (heads, rest) =
        chains j e.event_hash f.event_hash es fs h.1 k.1 (omega (arith, size)) same in
      let l = h.0 in
      let m = k.0 in
      let (prior, entry) = covers l.actor m.actor l.entry m.entry x y l.draw m.draw (
        sym (ap (λ (v : AuditEvent). v.event_hash) l.made)
        ∙ heads
        ∙ ap (λ (v : AuditEvent). v.event_hash) m.made) in
      (
        prior,
        (
          subst (λ v. SameEntry v f) (sym l.made)
              (subst (SameEntry (new_event P l.actor l.entry x l.draw)) (sym m.made) entry),
          rest,
        ),
      )
  chains j x y [] (f ∷ fs) h k size same = absurd (omega (arith, size))
  chains j x y (e ∷ es) [] h k size same = absurd (omega (arith, size))

  -- With SHA-256 taken as a hash without collisions, and the canonical JSON, UUIDs and times told
  -- apart by their texts: two audit chains of a tenant of the same length with the same head are the
  -- same, event by event, in actor, action, request, result count, time and both hashes. So the head
  -- that a signed receipt carries leaves no other history of that length to be shown in its place.
  pub head_pins_history :
      (j : Uuid) (es fs : List AuditEvent)
      → IsChain P j genesis es
      → IsChain P j genesis fs
      → length es ≡ length fs
      → head_of es ≡ head_of fs
      → SameEntries es fs
  head_pins_history j es fs h k size same =
      (chains j genesis genesis es fs h k size
        (genesis-head_of P es ∙ same ∙ sym (genesis-head_of P fs))).1
