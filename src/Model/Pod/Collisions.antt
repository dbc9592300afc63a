-- ===== src/Model/Pod/Collisions.antt =====
-- When two pods of a tenant get one name on the host.
use Prim.Native.Char.{Char, code}
use Prim.Native.String.append
use text.Mathlib.TextLemmas.{append_assoc, append_cancel_left}
use mathlib.Core.Path.{ap₂}
use vnode.Base.{ℕ, ◌≡◌, ◌≢◌, refl, sym, ap, ◌∙◌, String, ◌<>◌}
use vnode.Model.Pod.{PodSpec, TranslateOpts, translate_pod}

-- No character of the text is a dash.
abbrev pub DashFree : String → Type 0
DashFree String.[] = Unit
DashFree (String.◌∷◌ c s) = (code c ≢ b'-') × DashFree s

head_code : String → ℕ
head_code String.[] = 0
head_code (String.◌∷◌ c s) = code c

tail : String → String
tail String.[] = String.[]
tail (String.◌∷◌ c s) = s

head_char : Char → String → Char
head_char d String.[] = d
head_char d (String.◌∷◌ c s) = c

-- A text that begins with a dash and one that does not differ.
dash_first : (x t : String) (d : Char) → "-" <> x ≡ String.◌∷◌ d t → code d ≡ b'-'
unfolding head_code
dash_first x t d e = ap head_code (sym e ∙ append.cons _ _ x)

split_unique :
    (s t x y : String)
    → DashFree s
    → DashFree t
    → s <> ("-" <> x) ≡ t <> ("-" <> y)
    → (s ≡ t) × (x ≡ y)
unfolding tail head_char
split_unique String.[] String.[] x y hs ht e =
    (refl, append_cancel_left "-" x y (sym (append.nil _) ∙ e ∙ append.nil _))
split_unique String.[] (String.◌∷◌ d t) x y hs (dash, ht) e =
    absurd (dash (dash_first x (t <> ("-" <> y)) d (sym (append.nil _) ∙ e ∙ append.cons _ _ _)))
split_unique (String.◌∷◌ c s) String.[] x y (dash, hs) ht e =
    absurd
      (dash (dash_first y (s <> ("-" <> x)) c (sym (append.nil _) ∙ sym e ∙ append.cons _ _ _)))
split_unique (String.◌∷◌ c s) (String.◌∷◌ d t) x y (_, hs) (_, ht) e =
    let f = sym (append.cons c s _) ∙ e ∙ append.cons d t _ in
    let (p, q) = split_unique s t x y hs ht (ap tail f) in
    (ap₂ String.◌∷◌ (ap (head_char c) f) p, q)

-- On one virtual node, two pods whose namespaces hold no dash and whose translations have one name
-- are of one namespace and one name.
pub translate_pod-injective :
    (s t : PodSpec) (opts : TranslateOpts)
    → DashFree s.namespace
    → DashFree t.namespace
    → (translate_pod s opts).target_pod.name ≡ (translate_pod t opts).target_pod.name
    → (s.namespace ≡ t.namespace) × (s.name ≡ t.name)
unfolding translate_pod
translate_pod-injective s t opts h h' e =
    split_unique s.namespace t.namespace s.name t.name h h'
      (append_cancel_left "-" _ _ (append_cancel_left opts.vnode_name _ _ e))

-- With dashes names collide: the pod `c` of the namespace `a-b` and the pod `b-c` of the namespace `a`
-- are translated into pods of one name in one namespace.
pub translate_pod-collides :
    (s t : PodSpec) (opts : TranslateOpts) (a b c : String)
    → s.namespace ≡ a <> ("-" <> b)
    → s.name ≡ c
    → t.namespace ≡ a
    → t.name ≡ b <> ("-" <> c)
    → ((translate_pod s opts).target_pod.name ≡ (translate_pod t opts).target_pod.name)
      × ((translate_pod s opts).target_pod.namespace ≡ (translate_pod t opts).target_pod.namespace)
unfolding translate_pod
translate_pod-collides s t opts a b c e f g h = (
  ap (λ x. opts.vnode_name <> ("-" <> x))
      (ap₂ (λ x y. x <> ("-" <> y)) e f
        ∙ append_assoc a ("-" <> b) _
        ∙ ap (λ x. a <> x) (append_assoc "-" b _)
        ∙ sym (ap₂ (λ x y. x <> ("-" <> y)) g h)),
  refl,
)
