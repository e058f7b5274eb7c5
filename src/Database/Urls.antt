-- ===== src/Database/Urls.antt =====
-- What the methods do to the URLs in the table of nodes.
use llama_net.Prelude.{Bool, true, false, [], ◌∷◌, String, if◌then◌else◌}
use llama_net.Prelude.Dict.{Each}
use llama_net.Database.State.{Manager}
use llama_net.Database.Calls.{
  Outcome, returned, raised, Schedule, Method, pure, bind_with, ◌>>=◌, ◌>>◌, handle_with, catch,
  execute, select, write, get, modify,
}

module _ (U : String → Type 0) where
  -- Every row of the table has such a URL.
  abbrev pub AllUrls : Manager → Type 0
  AllUrls m = Each (λ r. U r.url) m.nodes

  -- A method keeps this, however it ends.
  pub record Keeps {A : Type 0} (x : Method A) : Type 0 where
    pub at : (m : Manager) (s : Schedule) → AllUrls m → AllUrls (x m s).1

  bound :
      {A B : Type 0} (f : A → Method B) (r : Outcome A × Manager × Schedule)
      → ((a : A) → Keeps (f a))
      → AllUrls r.1
      → AllUrls (bind_with f r).1
  bound f (returned a, m, s) k h = (k a).at m s h
  bound f (raised, m, s) k h = h

  pub Keeps-bind :
      {A B : Type 0} (x : Method A) (f : A → Method B)
      → Keeps x
      → ((a : A) → Keeps (f a))
      → Keeps (x >>= f)
  Keeps-bind x f hx hf = record { at = λ m s h. bound f (x m s) hf (hx.at m s h) }

  pub Keeps-then : {A B : Type 0} (x : Method A) (y : Method B) → Keeps x → Keeps y → Keeps (x >> y)
  Keeps-then x y hx hy = Keeps-bind x (λ a. y) hx (λ a. hy)

  handled :
      {A : Type 0} (y : Method A) (r : Outcome A × Manager × Schedule)
      → Keeps y
      → AllUrls r.1
      → AllUrls (handle_with y r).1
  handled y (returned a, m, s) k h = h
  handled y (raised, m, s) k h = k.at m s h

  pub Keeps-catch : {A : Type 0} (x y : Method A) → Keeps x → Keeps y → Keeps (catch x y)
  Keeps-catch x y hx hy = record { at = λ m s h. handled y (x m s) hy (hx.at m s h) }

  pub Keeps-pure : {A : Type 0} (a : A) → Keeps (pure a)
  Keeps-pure a = record { at = λ m s h. h }

  pub Keeps-execute :
      {A : Type 0} (call : Manager → A × Manager)
      → ((m : Manager) → AllUrls m → AllUrls (call m).1)
      → Keeps (execute call)
  unfolding execute
  Keeps-execute call k = record { at = λ m s h. executed m s h }
    where
      executed : (m : Manager) (s : Schedule) → AllUrls m → AllUrls (execute call m s).1
      executed m [] h = k m h
      executed m (true ∷ s) h = h
      executed m (false ∷ s) h = k m h

  pub Keeps-select : {A : Type 0} (f : Manager → A) → Keeps (select f)
  Keeps-select f = Keeps-execute (λ m. (f m, m)) (λ m h. h)

  pub Keeps-write :
      (f : Manager → Manager) → ((m : Manager) → AllUrls m → AllUrls (f m)) → Keeps (write f)
  Keeps-write f k = Keeps-execute (λ m. (tt, f m)) k

  pub Keeps-get : {A : Type 0} (f : Manager → A) → Keeps (get f)
  Keeps-get f = record { at = λ m s h. h }

  pub Keeps-modify :
      (f : Manager → Manager) → ((m : Manager) → AllUrls m → AllUrls (f m)) → Keeps (modify f)
  Keeps-modify f k = record { at = λ m s h. k m h }

  pub Keeps-if :
      {A : Type 0} (b : Bool) (x y : Method A) → Keeps x → Keeps y → Keeps (if b then x else y)
  Keeps-if true x y hx hy = hx
  Keeps-if false x y hx hy = hy
