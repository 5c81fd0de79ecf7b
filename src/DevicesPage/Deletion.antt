-- ===== src/DevicesPage/Deletion.antt =====
-- The deletion of the selected devices: one request after the other until the first failure.
use edge_guardian.Base.{
  ◌≡◌, refl, ap, ◌∙◌, Bool, true, false, Option, none, some, List, [], ◌∷◌, ◌++◌, Text, codes,
  length,
}
use edge_guardian.Decimal.{to_string}
use edge_guardian.Http.{Failure, api_error, network_error, syntax_error, Result, ok, err}
use edge_guardian.DevicesPage.{PageState}

-- What the mutation's callbacks do besides the state: the toast, and whether the query of the
-- devices is invalidated and so read anew.
pub record Effects : Type 0 where
  pub error_toast : Bool
  pub toast : Text
  pub invalidated : Bool

-- `err.message`; those of the platform's exceptions are the browser's.
abbrev pub message : Text → Text → Failure → Text
message network syntax (api_error status text) = text
message network syntax network_error = network
message network syntax syntax_error = syntax

-- `onSuccess` and `onError`.
unfoldable pub settle_delete : Text → Text → PageState → Option Failure → PageState × Effects
settle_delete network syntax s none = (
  record s { selected = [] },
  record {
    error_toast = false;
    toast = codes "Deleted " ++ to_string (length s.selected) ++ codes " device(s)";
    invalidated = true;
  },
)
settle_delete network syntax s (some e) = (
  s,
  record {
    error_toast = true;
    toast = codes "Failed to delete: " ++ message network syntax e;
    invalidated = false;
  },
)

abbrev pub concluded {ℓ} :
    {S : Type ℓ} → Text → Text → PageState → S × Option Failure → S × (PageState × Effects)
concluded network syntax s (server, failure) = (server, settle_delete network syntax s failure)

-- An `await` in the loop: a rejection ends the mutation.
abbrev pub attempt {ℓ} :
    {S : Type ℓ} → S × Result (Unit {0}) → (S → S × Option Failure) → S × Option Failure
attempt (server, ok _) rest = rest server
attempt (server, err e) rest = (server, some e)

-- The server as a state, and `deleteDevice` as a function on it.
module _ {ℓ} {S : Type ℓ} (delete : Text → S → S × Result (Unit {0})) where
  -- The mutation function.
  unfoldable pub delete_all : List Text → S → S × Option Failure
  delete_all [] server = (server, none)
  delete_all (id ∷ ids) server = attempt (delete id server) (delete_all ids)

  -- The requests for `ids` succeed one after the other and take the server from one state to
  -- another.
  pub data Deleted : List Text → S → S → Type ℓ where
    nothing : (s : S) → Deleted [] s s
    next :
        {ids : List Text} {t u : S} (id : Text) (s : S)
        → delete id s ≡ (t, ok tt)
        → Deleted ids t u
        → Deleted (id ∷ ids) s u

  -- How the mutation ended: all deleted, or stopped by the first request that failed, with the
  -- requests before it done and those after it not made.
  pub data Ending (ids : List Text) (s : S) : S × Option Failure → Type ℓ where
    finished : {t : S} → Deleted ids s t → Ending ids s (t, none)
    stopped :
        {t u : S} (done rest : List Text) (id : Text) (e : Failure)
        → ids ≡ done ++ id ∷ rest
        → Deleted done s t
        → delete id t ≡ (u, err e)
        → Ending ids s (u, some e)

  later :
      (id : Text) (ids : List Text) (s t : S) (r : S × Option Failure)
      → delete id s ≡ (t, ok tt)
      → Ending ids t r
      → Ending (id ∷ ids) s r
  later id ids s t r h (finished d) = finished (next id s h d)
  later id ids s t r h (stopped done rest k e q d f) =
      stopped (id ∷ done) rest k e (ap (◌∷◌ id) q) (next id s h d) f

  attempt-Ending :
      (id : Text) (ids : List Text) (s : S) (r : S × Result (Unit {0}))
      → delete id s ≡ r
      → ((t : S) → Ending ids t (delete_all ids t))
      → Ending (id ∷ ids) s (attempt r (delete_all ids))
  attempt-Ending id ids s (t, ok u) h rest = later id ids s t (delete_all ids t) h (rest t)
  attempt-Ending id ids s (t, err e) h rest = stopped [] ids id e refl (nothing s) h

  -- The mutation makes the requests in order, and ends either with all of them done, or with the
  -- first failure, the requests before it done and none after it made.
  pub delete_all-Ending : (ids : List Text) (s : S) → Ending ids s (delete_all ids s)
  unfolding delete_all
  delete_all-Ending [] s = finished (nothing s)
  delete_all-Ending (id ∷ ids) s =
      attempt-Ending id ids s (delete id s) refl (delete_all-Ending ids)

  -- `onConfirm` of the dialog, and what comes of it.
  unfoldable pub confirm_delete : Text → Text → PageState → S → S × (PageState × Effects)
  unfolding delete_all settle_delete
  confirm_delete network syntax s server =
      concluded network syntax (record s { delete_confirm_open = false })
        (delete_all s.selected server)

  delete_all-stopped :
      {done : List Text} {s t : S} (rest : List Text) (id : Text) (u : S) (e : Failure)
      → Deleted done s t
      → delete id t ≡ (u, err e)
      → delete_all (done ++ id ∷ rest) s ≡ (u, some e)
  unfolding delete_all
  delete_all-stopped rest id u e (nothing s) h = rw h refl
  delete_all-stopped rest id u e (next k s g d) h = rw g (delete_all-stopped rest id u e d h)

  -- If a request fails after others were done, the user is told of the failure, but the page keeps
  -- all of its selection, the deleted devices included, and the devices are not read anew.
  pub confirm_delete-stopped :
      (network syntax : Text) (s : PageState) (server t u : S) (done rest : List Text) (id : Text)
      (e : Failure)
      → s.selected ≡ done ++ id ∷ rest
      → Deleted done server t
      → delete id t ≡ (u, err e)
      → confirm_delete network syntax s server ≡ (
        u,
        (
          record s { delete_confirm_open = false },
          record {
            error_toast = true;
            toast = codes "Failed to delete: " ++ message network syntax e;
            invalidated = false;
          },
        ),
      )
  unfolding confirm_delete
  confirm_delete-stopped network syntax s server t u done rest id e q d h =
      ap (concluded network syntax (record s { delete_confirm_open = false }))
        (ap (λ (ids : List Text). delete_all ids server) q ∙ delete_all-stopped rest id u e d h)
