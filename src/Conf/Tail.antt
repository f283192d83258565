-- ===== src/Conf/Tail.antt =====
-- The macro `sf_conf_insert_tail` of sf_conf.c, on the links of a list that ends in NULL.
use spiderframe.Base.{
  ℕ, zero, suc, ◌≤◌, ◌<◌, ◌≡◌, ◌≢◌, refl, ap, ◌∙◌, fun_ext, arith, false, List, [], ◌∷◌, ◌++◌,
  length, ◌==◌, if◌then◌else◌,
}
use spiderframe.Link.{
  update, Ptr, null, Links, Cmd, ok, fault, and_then, out_of_fuel, pure, get_next, set_next, ◌>>=◌,
  ◌>>◌,
}
use spiderframe.Link.Cycle.{count, last_or, count-last_or, SameOutside, head_or_null}
use spiderframe.Link.Append.{Returns, once-append, present-append}
use spiderframe.Link.Single.{Follows, behind, Follows-behind}

-- `while (h)`: the node goes behind the last.
unfoldable pub tail_loop : ℕ → Ptr → Ptr → Cmd (Unit {0})
tail_loop zero s h = λ _. out_of_fuel
tail_loop (suc k) s h =
    if h == null
    then pure tt
    else do n ← get_next h; if n == null then set_next h s else tail_loop k s n

-- `h` after the macro, which keeps it in `s->next` meanwhile.
unfoldable pub sf_conf_insert_tail : ℕ → Ptr → Ptr → Cmd Ptr
sf_conf_insert_tail k s h = do
  set_next s h
  if h == null then pure s else do tail_loop k s h; h' ← get_next s; set_next s null; pure h'

abbrev pub Ended : Links → List Ptr → Type 0
Ended h [] = Unit
Ended h (x ∷ xs) = Follows h x xs

-- `root` is the first of the distinct nodes `xs`, and the last has no successor.
pub record Listed (h : Links) (root : Ptr) (xs : List Ptr) : Type 0 where
  pub head : root ≡ head_or_null xs
  pub ended : Ended h xs
  pub once : (a : Ptr) → count a xs ≤ 1
  pub present : count null xs ≡ 0

abbrev written : Links → Ptr → Ptr → Links
written g p s = record g { next = update g.next p s }

tail_loop-Follows :
    (k s a : Ptr) (bs : List Ptr) (g : Links)
    → Follows g a bs
    → count null (a ∷ bs) ≡ 0
    → length bs < k
    → tail_loop k s a g ≡ ok tt (written g (last_or a bs) s)
unfolding tail_loop
tail_loop-Follows zero s a bs g f p lt = absurd (omega arith)
tail_loop-Follows (suc k) s a [] g f p lt = ground arith
tail_loop-Follows (suc k) s a (b ∷ bs) g f p lt = ground (arith, tail_loop-Follows k s b bs g)

Follows-aside :
    (s x : Ptr) (h : Links) (a : Ptr) (bs : List Ptr)
    → Follows h a bs
    → count s (a ∷ bs) ≡ 0
    → Follows (written h s x) a bs
Follows-aside s x h a [] f new = ground arith
Follows-aside s x h a (b ∷ bs) f new = (ground arith, Follows-aside s x h b bs f.1 (omega arith))

-- The three writes, against the two of a queue.
writes :
    (h : Links) (s x p : Ptr) → s ≢ p → written (written (written h s x) p s) s null ≡ behind h p s
writes h s x p ne = ap (λ (n : Ptr → Ptr). record h { next = n }) (fun_ext (λ a. ground arith))

insert_run :
    (k s x : Ptr) (xs : List Ptr) (h : Links)
    → s ≢ null
    → x ≢ null
    → s ≢ last_or x xs
    → tail_loop k s x (written h s x) ≡ ok tt (written (written h s x) (last_or x xs) s)
    → sf_conf_insert_tail k s x h ≡ ok x (behind h (last_or x xs) s)
unfolding sf_conf_insert_tail
insert_run k s x xs h ne some apart run =
    let p = last_or x xs in
    let at_end : Links = written (written h s x) p s in
    let b1 : (s == null) ≡ false = ground arith in
    let b2 : (x == null) ≡ false = ground arith in
    let saved : at_end.next s ≡ x = ground arith in
    let rest : Ptr → Cmd Ptr = λ h'. set_next s null >>= λ done. pure h' in
    let after : Cmd (Unit {0}) → Cmd Ptr = λ c. c >>= λ done. get_next s >>= rest in
    ap
      (λ b.
        and_then (if b then fault else ok tt (written h s x))
          (λ done. if x == null then pure s else after (tail_loop k s x)))
      b1
    ∙ ap (λ b. (if b then pure s else after (tail_loop k s x)) (written h s x)) b2
    ∙ ap (λ r. and_then r (λ done. get_next s >>= rest)) run
    ∙ ap (λ b. and_then (if b then fault else ok (at_end.next s) at_end) rest) b1
    ∙ ap (λ q. rest q at_end) saved
    ∙ ap (λ b. and_then (if b then fault else ok tt (written at_end s null)) (λ done. pure x)) b1
    ∙ ap (λ g. ok x g) (writes h s x p apart)

module _ {h : Links} where
  -- On a list of distinct nodes that ends in NULL, with a node that is not NULL and not on it and
  -- fuel for the nodes, sf_conf_insert_tail does not fault, and leaves the list with the node behind
  -- the others, its links NULL-terminated again; no link but those of the list and of the node is
  -- written.
  pub insert_tail-Listed :
      (k root s : Ptr) (xs : List Ptr)
      → Listed h root xs
      → s ≢ null
      → count s xs ≡ 0
      → length xs ≤ k
      → Returns
          (λ root' g. Listed g root' (xs ++ s ∷ []) × SameOutside (s ∷ xs) h g)
          (sf_conf_insert_tail k s root h)
  unfolding sf_conf_insert_tail
  insert_tail-Listed k root s [] l ne new le = (
    s,
    written h s root,
    ground (arith, l.head),
    (
      record {
        head = refl;
        ended = ground (arith, l.head);
        once = once-append s [] l.once new;
        present = present-append s ne [] refl;
      },
      λ a out. ground arith,
    ),
  )
  insert_tail-Listed k root s (x ∷ xs) l ne new le =
      let p = last_or x xs in
      let apart : s ≢ p =
        λ e. omega (arith, count-last_or x xs, ap (λ (c : Ptr). count c (x ∷ xs)) e) in
      (
        x,
        behind h p s,
        ap (λ r. sf_conf_insert_tail k s r h) l.head
            ∙ insert_run k s x xs h ne
                (λ e. omega (arith, l.present, ap (λ (c : Ptr). count null (c ∷ xs)) e)) apart
                (tail_loop-Follows k s x xs (written h s x) (Follows-aside s x h x xs l.ended new)
                  l.present (omega arith)),
        (
          record {
            head = refl;
            ended = Follows-behind h p s x xs refl l.ended l.once new;
            once = once-append s (x ∷ xs) l.once new;
            present = present-append s ne (x ∷ xs) l.present;
          },
          λ a out.
              let there = count-last_or x xs in
              let other : a ≢ p = λ e. omega (arith, ap (λ (c : Ptr). count c (x ∷ xs)) e) in
              ground arith,
        ),
      )
