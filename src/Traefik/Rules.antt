-- ===== src/Traefik/Rules.antt =====
-- Rules of Traefik as they are written, and the hosts that the two regular expressions find in them.
use scam.Base.{
  ℕ, zero, suc, ◌≤◌, ◌<◌, ◌≡◌, ◌≢◌, refl, ap, ap₂, subst, append-nil, ◌∙◌, none, some, List, [],
  ◌∷◌, ◌++◌, map, arith, Text, codes, length, length-append, Free, All,
}
use scam.Image.Split.{Free-append}
use scam.Image.Cuts.{cut_first-append, cut_first-Free}
use scam.Traefik.Hosts.{after_matcher, host_calls, backticked, hosts_in, match_hosts}

pub data Matcher : Type 0 where
  host_plain : Matcher
  host_sni : Matcher
  host_header : Matcher
  host_regexp : Matcher

abbrev pub opening : Matcher → Text
opening host_plain = codes "Host("
opening host_sni = codes "HostSNI("
opening host_header = codes "HostHeader("
opening host_regexp = codes "HostRegexp("

-- A host in backticks, behind a separator.
pub record Arg : Type 0 where
  pub before : Text
  pub host : Text

-- A call of a matcher, with what stands before it and before its ")".
pub record Call : Type 0 where
  pub gap : Text
  pub matcher : Matcher
  pub args : List Arg
  pub close : Text

unfoldable pub args_text : List Arg → Text → Text
args_text [] close = close
args_text (a ∷ as') close = a.before ++ b'`' ∷ (a.host ++ b'`' ∷ args_text as' close)

unfoldable pub rule_text : List Call → Text → Text
rule_text [] end' = end'
rule_text (c ∷ cs) end' =
    c.gap ++ (opening c.matcher ++ (args_text c.args c.close ++ b')' ∷ rule_text cs end'))

unfoldable pub rule_hosts : List Call → List Text
rule_hosts [] = []
rule_hosts (c ∷ cs) = map (λ a. a.host) c.args ++ rule_hosts cs

-- No text holds the signs that end it, and no host is empty.
abbrev pub IsArg : Arg → Type 0
IsArg a =
    (a.host ≢ []) × Free b'`' a.host × Free b')' a.host × Free b'`' a.before × Free b')' a.before

-- The text between the calls is free of "H", with which a matcher begins.
abbrev pub IsCall : Call → Type 0
IsCall c = Free b'H' c.gap × All IsArg c.args × Free b'`' c.close × Free b')' c.close

after_opening : (m : Matcher) (s : Text) → after_matcher (opening m ++ s) ≡ some s
unfolding after_matcher
after_opening host_plain s = refl
after_opening host_sni s = refl
after_opening host_header s = refl
after_opening host_regexp s = refl

no_opening : (b : ℕ) (s : Text) → b ≢ b'H' → after_matcher (b ∷ s) ≡ none
unfolding after_matcher
no_opening b s h = ground arith

Free-args :
    (as' : List Arg) (close : Text)
    → All IsArg as'
    → Free b')' close
    → Free b')' (args_text as' close)
unfolding args_text
Free-args [] close h k = k
Free-args (a ∷ as') close ((_, _, fh, _, fb), h) k = Free-append b')' a.before _ fb (
  (λ e. absurd (omega (arith, e))),
  Free-append b')' a.host _ fh ((λ e. absurd (omega (arith, e))), Free-args as' close h k),
)

backticked-first :
    (f : ℕ) (before name rest : Text)
    → name ≢ []
    → Free b'`' name
    → Free b'`' before
    → backticked (suc f) (before ++ b'`' ∷ (name ++ b'`' ∷ rest)) ≡ name ∷ backticked f rest
unfolding backticked
backticked-first f before [] rest h fh fb = absurd (h refl)
backticked-first f before (b ∷ name) rest h fh fb =
    rw
      (
        backticked,
        cut_first-append b'`' before (b ∷ name ++ b'`' ∷ rest) fb,
        cut_first-append b'`' (b ∷ name) rest fh,
      )
      refl

backticked-none : (f : ℕ) (s : Text) → Free b'`' s → backticked (suc f) s ≡ []
unfolding backticked
backticked-none f s h = rw (backticked, cut_first-Free b'`' s h) refl

backticked-args :
    (f : ℕ) (as' : List Arg) (close : Text)
    → All IsArg as'
    → Free b'`' close
    → length (args_text as' close) < f
    → backticked f (args_text as' close) ≡ map (λ a. a.host) as'
unfolding args_text
backticked-args zero as' close h k low = absurd (omega arith)
backticked-args (suc f) [] close h k low = backticked-none f close k
backticked-args (suc f) (a ∷ as') close ((ne, fh, _, fb, _), h) k low =
    let rest = args_text as' close in
    let outer = length-append a.before (b'`' ∷ (a.host ++ b'`' ∷ rest)) in
    let inner = length-append a.host (b'`' ∷ rest) in
    backticked-first f a.before a.host rest ne fh fb
    ∙ ap (◌∷◌ a.host) (backticked-args f as' close h k (omega (arith, low, outer, inner)))

-- What host_calls makes of a text, whatever its fuel, if it is enough.
abbrev Calls : Text → List Text → Type 0
Calls s cs = (f : ℕ) → length s ≤ f → host_calls f s ≡ cs

nil-Calls : Calls [] []
unfolding host_calls
nil-Calls zero h = refl
nil-Calls (suc f) h = refl

gap-Calls :
    (gap rest : Text) (cs : List Text) → Free b'H' gap → Calls rest cs → Calls (gap ++ rest) cs
unfolding host_calls
gap-Calls [] rest cs h k f low = k f low
gap-Calls (b ∷ gap) rest cs h k zero low = absurd (omega arith)
gap-Calls (b ∷ gap) rest cs h k (suc f) low =
    rw (host_calls, no_opening b (gap ++ rest) h.0) (gap-Calls gap rest cs h.1 k f (omega arith))

called :
    (f b : ℕ) (s args rest : Text) (cs : List Text)
    → after_matcher (b ∷ s) ≡ some (args ++ b')' ∷ rest)
    → Free b')' args
    → Calls rest cs
    → length (b ∷ s) ≤ f
    → length rest < length (b ∷ s)
    → host_calls f (b ∷ s) ≡ args ∷ cs
unfolding host_calls
called zero b s args rest cs e h k low shorter = absurd (omega arith)
called (suc f) b s args rest cs e h k low shorter =
    rw (host_calls, e, cut_first-append b')' args rest h)
      (ap (◌∷◌ args) (k f (omega (arith, low, shorter))))

longer :
    (m : Matcher) (args rest : Text) → length rest < length (opening m ++ (args ++ b')' ∷ rest))
longer m args rest =
    omega (arith, length-append (opening m) (args ++ b')' ∷ rest), length-append args (b')' ∷ rest))

call-Calls :
    (m : Matcher) (args rest : Text) (cs : List Text)
    → Free b')' args
    → Calls rest cs
    → Calls (opening m ++ (args ++ b')' ∷ rest)) (args ∷ cs)
call-Calls host_plain args rest cs h k f low =
    called f _ _ args rest cs (after_opening host_plain _) h k low (longer host_plain args rest)
call-Calls host_sni args rest cs h k f low =
    called f _ _ args rest cs (after_opening host_sni _) h k low (longer host_sni args rest)
call-Calls host_header args rest cs h k f low =
    called f _ _ args rest cs (after_opening host_header _) h k low (longer host_header args rest)
call-Calls host_regexp args rest cs h k f low =
    called f _ _ args rest cs (after_opening host_regexp _) h k low (longer host_regexp args rest)

abbrev calls_text : List Call → List Text
calls_text cs = map (λ c. args_text c.args c.close) cs

rule-Calls :
    (cs : List Call) (end' : Text)
    → All IsCall cs
    → Free b'H' end'
    → Calls (rule_text cs end') (calls_text cs)
unfolding rule_text
rule-Calls [] end' h k =
    subst (λ s. Calls s []) (append-nil end') (gap-Calls end' [] [] k nil-Calls)
rule-Calls (c ∷ cs) end' ((fg, as', _, fc), h) k = gap-Calls c.gap _ _ fg (
    call-Calls c.matcher (args_text c.args c.close) _ _ (Free-args c.args c.close as' fc)
      (rule-Calls cs end' h k))

calls_text-hosts : (cs : List Call) → All IsCall cs → hosts_in (calls_text cs) ≡ rule_hosts cs
unfolding hosts_in rule_hosts
calls_text-hosts [] h = refl
calls_text-hosts (c ∷ cs) ((_, as', fb, _), h) =
    ap₂ ◌++◌ (backticked-args _ c.args c.close as' fb (omega arith)) (calls_text-hosts cs h)

-- In a rule as it is written, the two regular expressions find the hosts, all of them and in order.
pub match_hosts-rule :
    (cs : List Call) (end' : Text)
    → All IsCall cs
    → Free b'H' end'
    → match_hosts (rule_text cs end') ≡ rule_hosts cs
unfolding match_hosts
match_hosts-rule cs end' h k =
    ap hosts_in (rule-Calls cs end' h k _ (omega arith)) ∙ calls_text-hosts cs h
