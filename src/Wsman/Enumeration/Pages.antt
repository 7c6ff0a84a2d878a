-- ===== src/Wsman/Enumeration/Pages.antt =====
-- wsman/client.go: the loop of `Enumerate` collects the pages up to the end of the sequence, in
-- order, each page asked for with the context of the page before.
use mathlib.Core.Path.{subst}
use go_wsman.Common.{
  [], ◌↔◌, Option, Bool-cases, inl, inr, Result-cases, sym, ℕ, zero, suc, ◌≤◌, ◌≡◌, refl, ◌∙◌, ap,
  true, false, List, ◌∷◌, ◌++◌, Bytes, ok, arith, append_assoc,
}
use go_wsman.Common.Props.{Props}
use go_wsman.Wsman.Enumeration.{
  open_request, default_max_pull_iterations, pull_uri, parse_enumerate_response, query_empty,
  opened, enumerate, WsRequest, pull_request, Server, PullResponse, pulled, after_pull, pull_loop,
}

module _ (server : Server) (uri : Bytes) where
  -- The server has `n` pages from the context `ctx` on: their items, and the requests behind them.
  pub data Pages : ℕ → Bytes → List WsRequest → List Props → List WsRequest → Type 0 where
    last_page :
        {ctx : Bytes} {h : List WsRequest} (r : PullResponse)
        → pulled server (pull_request uri ctx ∷ h) ≡ ok r
        → r.end_of_sequence ≡ true
        → Pages 1 ctx h r.items (pull_request uri ctx ∷ h)
    page :
        {n : ℕ} {ctx : Bytes} {h h' : List WsRequest} {rest : List Props} (r : PullResponse)
        → pulled server (pull_request uri ctx ∷ h) ≡ ok r
        → r.end_of_sequence ≡ false
        → Pages n r.enumeration_context (pull_request uri ctx ∷ h) rest h'
        → Pages (suc n) ctx h (r.items ++ rest) h'

  -- Pages that are no more than the loop may ask for are collected, behind what it has.
  pull_loop-Pages :
      (left : ℕ) {n : ℕ} {ctx : Bytes} (all : List Props) {h h' : List WsRequest}
      {items : List Props}
      → Pages n ctx h items h'
      → n ≤ left
      → pull_loop server left uri ctx all h ≡ (ok (all ++ items), h')
  unfolding pull_loop after_pull
  pull_loop-Pages zero all (last_page r got end) few = absurd (omega arith)
  pull_loop-Pages zero all (page r got more rest) few = absurd (omega arith)
  pull_loop-Pages (suc left) all (last_page r got end) few = rw (got, after_pull) (rw end refl)
  pull_loop-Pages (suc left) all {h' = h'} (page r got more rest) few =
      rw (got, after_pull)
        (rw more (
          pull_loop-Pages left (all ++ r.items) rest (omega arith)
          ∙ ap (λ items. (ok items, h')) (append_assoc all r.items _)))

  -- What the loop returns was collected from so many pages.
  pub record Collected (left : ℕ) (ctx : Bytes) (all : List Props) (h : List WsRequest)
      (total : List Props) (h' : List WsRequest) : Type 0 where
    pub pages : ℕ
    pub items : List Props
    pub few : pages ≤ left
    pub found : Pages pages ctx h items h'
    pub joined : all ++ items ≡ total

  one_more :
      (left : ℕ) (ctx : Bytes) (all : List Props) (h : List WsRequest) (r : PullResponse)
      {total : List Props} {h' : List WsRequest}
      → pulled server (pull_request uri ctx ∷ h) ≡ ok r
      → r.end_of_sequence ≡ false
      → Collected left r.enumeration_context (all ++ r.items) (pull_request uri ctx ∷ h) total h'
      → Collected (suc left) ctx all h total h'
  one_more left ctx all h r got more c = record {
    pages = suc c.pages;
    items = r.items ++ c.items;
    few = let few : c.pages ≤ left = c.few in omega arith;
    found = page r got more c.found;
    joined = sym (append_assoc all r.items c.items) ∙ c.joined;
  }

  ended :
      (left : ℕ) (ctx : Bytes) (all : List Props) (h : List WsRequest) (r : PullResponse)
      {total : List Props} {h' : List WsRequest}
      → pulled server (pull_request uri ctx ∷ h) ≡ ok r
      → r.end_of_sequence ≡ true
      → all ++ r.items ≡ total
      → pull_request uri ctx ∷ h ≡ h'
      → Collected (suc left) ctx all h total h'
  ended left ctx all h r {total} {h'} got end joined made = record {
    pages = 1;
    items = r.items;
    few = omega arith;
    found = subst (Pages 1 ctx h r.items) made (last_page r got end);
    joined = joined;
  }

  pull_loop-Collected :
      (left : ℕ) (ctx : Bytes) (all : List Props) (h : List WsRequest) {total : List Props}
      {h' : List WsRequest}
      → pull_loop server left uri ctx all h ≡ (ok total, h')
      → Collected left ctx all h total h'
  unfolding pull_loop after_pull
  pull_loop-Collected zero ctx all h e = cc
  pull_loop-Collected (suc left) ctx all h {total} {h'} e =
      elim (Result-cases (pulled server (pull_request uri ctx ∷ h))) [
        | inr (x, bad) ↦ (let e' = rw (bad, after_pull) at e in cc)
        | inl (r, got) ↦ elim (Bool-cases r.end_of_sequence) [
          | inl end ↦
              (let e' = rw end at (rw (got, after_pull) at e) in
                ended left ctx all h r got end (cc) (cc))
          | inr more ↦ one_more left ctx all h r got more (
              pull_loop-Collected left r.enumeration_context (all ++ r.items)
                (pull_request uri ctx ∷ h) (rw more at (rw (got, after_pull) at e)))
        ]
      ]

-- A listing that succeeded: the server opened a context, and had at most 1000 pages from it on.
pub record Listed (server : Server) (uri : Bytes) (query : Option Bytes) (h : List WsRequest)
    (total : List Props) (h' : List WsRequest) : Type 0 where
  pub accepted : query_empty query ≡ false
  pub ctx : Bytes
  pub opened_with :
      parse_enumerate_response (server.open_answer (open_request (pull_uri query uri) query ∷ h))
      ≡ ok ctx
  pub collected :
      Collected server
        (pull_uri query uri)
        default_max_pull_iterations
        ctx
        []
        (open_request (pull_uri query uri) query ∷ h)
        total
        h'

enumerate_only_if :
    (server : Server) (uri : Bytes) (query : Option Bytes) (h : List WsRequest) {total : List Props}
    {h' : List WsRequest}
    → enumerate server uri query h ≡ (ok total, h')
    → Listed server uri query h total h'
unfolding enumerate opened
enumerate_only_if server uri query h e = elim (Bool-cases (query_empty query)) [
  | inl empty ↦ (let e' = rw empty at e in cc)
  | inr full ↦
      elim (Result-cases (
        parse_enumerate_response
          (server.open_answer (open_request (pull_uri query uri) query ∷ h)))) [
            | inr (x, bad) ↦ (let e' = rw (bad, opened) at (rw full at e) in cc)
            | inl (ctx, good) ↦ record {
              accepted = full;
              ctx = ctx;
              opened_with = good;
              collected =
                  pull_loop-Collected server (pull_uri query uri) default_max_pull_iterations ctx []
                    _ (rw (good, opened) at (rw full at e));
            }
          ]
]

enumerate_if :
    (server : Server) (uri : Bytes) (query : Option Bytes) (h : List WsRequest) {total : List Props}
    {h' : List WsRequest}
    → Listed server uri query h total h'
    → enumerate server uri query h ≡ (ok total, h')
unfolding enumerate opened
enumerate_if server uri query h {h' = h'} l = rw l.accepted (
    rw (l.opened_with, opened)
      (pull_loop-Pages server (pull_uri query uri) default_max_pull_iterations [] l.collected.found
          l.collected.few
        ∙ ap (λ items. (ok items, h')) l.collected.joined))

-- `Enumerate` returns instances exactly if the query is not an empty one, the server opens a context
-- that is not empty, and at most 1000 pages follow up to one that ends the sequence, each asked for
-- with the context of the page before. The result is the instances of these pages in order, and no
-- other request is made.
pub enumerate-Listed :
    (server : Server) (uri : Bytes) (query : Option Bytes) (h : List WsRequest) (total : List Props)
    (h' : List WsRequest)
    → (enumerate server uri query h ≡ (ok total, h')) ↔ Listed server uri query h total h'
enumerate-Listed server uri query h total h' =
    (enumerate_only_if server uri query h, enumerate_if server uri query h)
