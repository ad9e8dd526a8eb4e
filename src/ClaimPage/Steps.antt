-- ===== src/ClaimPage/Steps.antt =====
-- The steps that packages/frontend/src/pages/claim.tsx shows.
use vpp_blockchain.Base.{
  ◌≡◌, ◌≢◌, refl, ap, ◌∙◌, ◌⊎◌, inl, inr, Bool, true, false, Option, none, some, List, [], ◌∷◌,
}
use vpp_blockchain.Claim.{ClaimResult}
use vpp_blockchain.ClaimPage.{
  ClaimStep, wallet, sign, submit, finished, Await, nothing, for_signature, for_answer, Page,
  open_page, Event, wallet_found, clicked, signed, sign_failed, claimed, claim_failed, handle,
  handle_all, find_wallet, click, settle_signature, settle_claim, fail_sign,
}

-- The step that is shown, what is waited for, and what the page knows.
pub data Shows : ClaimStep → Bool → Option ClaimResult → Await → Type 0 where
  at_wallet : Shows wallet false none nothing
  at_sign : Shows sign false none nothing
  signing : Shows sign true none for_signature
  submitting : Shows submit true none for_answer
  succeeded : (r : ClaimResult) → Shows finished false (some r) nothing

abbrev pub IsConsistent : Page → Type 0
IsConsistent p = Shows p.current_step p.loading p.result p.awaits

handle-IsConsistent : (p : Page) (e : Event) → IsConsistent p → IsConsistent (handle p e)
unfolding handle find_wallet click settle_signature settle_claim fail_sign
handle-IsConsistent p e h = go p.current_step p.loading p.result p.awaits e h
  where
    go :
        (s : ClaimStep) (l : Bool) (r : Option ClaimResult) (a : Await) (e : Event)
        → Shows s l r a
        → IsConsistent
            (handle (record p { current_step = s; loading = l; result = r; awaits = a }) e)
    go s l r a wallet_found at_wallet = at_sign
    go s l r a clicked at_wallet = at_wallet
    go s l r a signed at_wallet = at_wallet
    go s l r a sign_failed at_wallet = at_wallet
    go s l r a (claimed x) at_wallet = at_wallet
    go s l r a (claim_failed x) at_wallet = at_wallet
    go s l r a wallet_found at_sign = at_sign
    go s l r a clicked at_sign = signing
    go s l r a signed at_sign = at_sign
    go s l r a sign_failed at_sign = at_sign
    go s l r a (claimed x) at_sign = at_sign
    go s l r a (claim_failed x) at_sign = at_sign
    go s l r a wallet_found signing = signing
    go s l r a clicked signing = signing
    go s l r a signed signing = submitting
    go s l r a sign_failed signing = at_sign
    go s l r a (claimed x) signing = signing
    go s l r a (claim_failed x) signing = signing
    go s l r a wallet_found submitting = submitting
    go s l r a clicked submitting = submitting
    go s l r a signed submitting = submitting
    go s l r a sign_failed submitting = submitting
    go s l r a (claimed x) submitting = succeeded x
    go s l r a (claim_failed x) submitting = at_sign
    go s l r a wallet_found (succeeded y) = succeeded y
    go s l r a clicked (succeeded y) = succeeded y
    go s l r a signed (succeeded y) = succeeded y
    go s l r a sign_failed (succeeded y) = succeeded y
    go s l r a (claimed x) (succeeded y) = succeeded y
    go s l r a (claim_failed x) (succeeded y) = succeeded y

handle_all-IsConsistent :
    (p : Page) (events : List Event) → IsConsistent p → IsConsistent (handle_all p events)
unfolding handle_all
handle_all-IsConsistent p [] h = h
handle_all-IsConsistent p (e ∷ events) h =
    handle_all-IsConsistent (handle p e) events (handle-IsConsistent p e h)

open_page-IsConsistent : IsConsistent open_page
unfolding open_page
open_page-IsConsistent = at_wallet

-- Nothing changes a page that has its result.
handle-finished :
    (p : Page) (e : Event) → p.current_step ≡ finished → p.awaits ≡ nothing → handle p e ≡ p
unfolding handle find_wallet click settle_signature settle_claim
handle-finished p wallet_found s a = rw s (refl)
handle-finished p clicked s a = rw s (refl)
handle-finished p signed s a = rw a (refl)
handle-finished p sign_failed s a = rw a (refl)
handle-finished p (claimed x) s a = rw a (refl)
handle-finished p (claim_failed x) s a = rw a (refl)

handle_all-finished :
    (p : Page) (events : List Event)
    → p.current_step ≡ finished
    → p.awaits ≡ nothing
    → handle_all p events ≡ p
unfolding handle_all
handle_all-finished p [] s a = refl
handle_all-finished p (e ∷ events) s a =
    ap (λ q. handle_all q events) (handle-finished p e s a) ∙ handle_all-finished p events s a

-- In every run the page either has no result and does not say that the claim succeeded, or it says so,
-- has a result and keeps both whatever comes after.
pub result-finished :
    (before after : List Event)
    → let p = handle_all open_page before in
      ((p.result ≡ none) × (p.current_step ≢ finished))
      ⊎ ((r : ClaimResult) × (p.result ≡ some r)
          × (p.current_step ≡ finished)
          × (handle_all p after ≡ p))
result-finished before after =
    let p = handle_all open_page before in
    go p.current_step p.loading p.result p.awaits refl refl refl
      (handle_all-IsConsistent open_page before open_page-IsConsistent)
  where
    go :
        (s : ClaimStep) (l : Bool) (r : Option ClaimResult) (a : Await)
        → (handle_all open_page before).current_step ≡ s
        → (handle_all open_page before).result ≡ r
        → (handle_all open_page before).awaits ≡ a
        → Shows s l r a
        → (((handle_all open_page before).result ≡ none)
            × ((handle_all open_page before).current_step ≢ finished))
          ⊎ ((r : ClaimResult) × ((handle_all open_page before).result ≡ some r)
              × ((handle_all open_page before).current_step ≡ finished)
              × (handle_all (handle_all open_page before) after ≡ handle_all open_page before))
    go s l r a es er ea at_wallet = inl (er, λ f. cc)
    go s l r a es er ea at_sign = inl (er, λ f. cc)
    go s l r a es er ea signing = inl (er, λ f. cc)
    go s l r a es er ea submitting = inl (er, λ f. cc)
    go s l r a es er ea (succeeded x) =
        inr (x, er, es, handle_all-finished (handle_all open_page before) after es ea)
