-- ===== src/Plugins/Order.antt =====
-- What the list of plugins is like.
use grpcreplay.Base.{
  ◌≡◌, refl, sym, ap, subst, ◌∙◌, Bool, true, false, Option, none, some, List, [], ◌∷◌, ◌++◌,
  append_assoc, append-nil, Bytes, if◌then◌else◌, All, arith, Result, ok, err, panic,
}
use grpcreplay.Base.Split.{All-append, All-map}
use grpcreplay.Settings.{AppSettings}
use grpcreplay.RawInput.{RawInput, InputError, new_raw_input}
use grpcreplay.Plugins.{
  System, PbFinder, Plugin, raw_input, file_dir_input, rocketmq_input, std_output, rocketmq_output,
  grpc_output, file_dir_output, is_reader, InOutPlugins, no_plugins, register_plugin, is_valid_dir,
  extract_addr, find_one_server_addr, Building, registered, next_stage, with_finder, use_finder,
  raw_at, grpc_at, register_raw, add_raw, add_file_input, add_grpc, add_file_output, each,
  add_queue_input, add_stdout, add_queue_output, first_finder, the_inputs, the_outputs, new_plugins,
  has_any, reflection_pb_finder,
}

-- The plugin looks up its types with this finder, if with any.
abbrev pub Uses : Option PbFinder → Plugin → Type 0
Uses f (raw_input i g) = f ≡ some g
Uses f (file_dir_input c p d) = Unit
Uses f (rocketmq_input n t g) = Unit
Uses f (std_output c) = Unit
Uses f (rocketmq_output n t) = Unit
Uses f (grpc_output a w g) = f ≡ some g
Uses f (file_dir_output c p s b a) = Unit

abbrev pub IsReader : Plugin → Type 0
IsReader p = is_reader p ≡ true

abbrev pub IsWriter : Plugin → Type 0
IsWriter p = is_reader p ≡ false

module _ ⦃s : System⦄ where
  pub record IsOrdered (b : Building) : Type 0 where
    pub together : b.plugins.all ≡ b.plugins.inputs ++ b.plugins.outputs
    pub readers : All IsReader b.plugins.inputs
    pub writers : All IsWriter b.plugins.outputs
    pub one_finder : All (Uses b.finder) b.plugins.all

  -- While the inputs are made there are no outputs.
  record Inputs (b : Building) : Type 0 where
    ordered : IsOrdered b
    no_outputs : b.plugins.outputs ≡ []

  -- Of a stage that does not end the program.
  abbrev Holds : (Building → Type 0) → Option Building → Type 0
  Holds P none = Unit
  Holds P (some b) = P b

  Holds-next_stage :
      (P Q : Building → Type 0) (o : Option Building) (stage : Building → Option Building)
      → Holds P o
      → ((b : Building) → P b → Holds Q (stage b))
      → Holds Q (next_stage o stage)
  Holds-next_stage P Q none stage h k = tt
  Holds-next_stage P Q (some b) stage h k = k b h

  Holds-each :
      (P : Building → Type 0) (stage : Building → Bytes → Option Building)
      → ((b : Building) (item : Bytes) → P b → Holds P (stage b item))
      → (b : Building) (items : List Bytes) → P b
      → Holds P (each stage b items)
  unfolding each
  Holds-each P stage k b [] h = h
  Holds-each P stage k b (item ∷ items) h =
      Holds-next_stage P P (stage b item) (λ b'. each stage b' items) (k b item h)
        (λ b' h'. Holds-each P stage k b' items h')

  registered-Inputs :
      (b : Building) (p : Plugin)
      → Inputs b
      → IsReader p
      → Uses b.finder p
      → Inputs (registered b p)
  registered-Inputs b p h r u =
      let e : register_plugin b.plugins p ≡ record {
        inputs = b.plugins.inputs ++ p ∷ [];
        outputs = b.plugins.outputs;
        all = b.plugins.all ++ p ∷ [];
      } =
        unfold register_plugin in ground (arith, r) in
      subst (λ (x : InOutPlugins). Inputs (record b { plugins = x })) (sym e)
        (record {
          ordered = record {
            together =
                ap (λ l. l ++ p ∷ [])
                  (h.ordered.together
                    ∙ ap (◌++◌ b.plugins.inputs) h.no_outputs
                    ∙ append-nil b.plugins.inputs)
                ∙ sym (append-nil (b.plugins.inputs ++ p ∷ []))
                ∙ ap (◌++◌ (b.plugins.inputs ++ p ∷ [])) (sym h.no_outputs);
            readers = All-append IsReader b.plugins.inputs (p ∷ []) h.ordered.readers (r, tt);
            writers = h.ordered.writers;
            one_finder =
                All-append (Uses b.finder) b.plugins.all (p ∷ []) h.ordered.one_finder (u, tt);
          };
          no_outputs = h.no_outputs;
        })

  registered-IsOrdered :
      (b : Building) (p : Plugin)
      → IsOrdered b
      → IsWriter p
      → Uses b.finder p
      → IsOrdered (registered b p)
  registered-IsOrdered b p h w u =
      let e : register_plugin b.plugins p ≡ record {
        inputs = b.plugins.inputs;
        outputs = b.plugins.outputs ++ p ∷ [];
        all = b.plugins.all ++ p ∷ [];
      } =
        unfold register_plugin in ground (arith, w) in
      subst (λ (x : InOutPlugins). IsOrdered (record b { plugins = x })) (sym e)
        (record {
          together =
              ap (λ l. l ++ p ∷ []) h.together
              ∙ append_assoc b.plugins.inputs b.plugins.outputs (p ∷ []);
          readers = h.readers;
          writers = All-append IsWriter b.plugins.outputs (p ∷ []) h.writers (w, tt);
          one_finder = All-append (Uses b.finder) b.plugins.all (p ∷ []) h.one_finder (u, tt);
        })

  Uses-later : (f : PbFinder) (p : Plugin) → Uses none p → Uses (some f) p
  Uses-later f (raw_input i g) u = absurd (cc u)
  Uses-later f (file_dir_input c p d) u = tt
  Uses-later f (rocketmq_input n t g) u = tt
  Uses-later f (std_output c) u = tt
  Uses-later f (rocketmq_output n t) u = tt
  Uses-later f (grpc_output a w g) u = absurd (cc u)
  Uses-later f (file_dir_output c p s b a) u = tt

  found-IsOrdered :
      (b : Building) (f : PbFinder)
      → b.finder ≡ none
      → IsOrdered b
      → IsOrdered (record b { finder = some f })
  found-IsOrdered b f e h = record {
    together = h.together;
    readers = h.readers;
    writers = h.writers;
    one_finder =
        All-map (Uses none) (Uses (some f)) b.plugins.all (Uses-later f)
          (subst (λ g. All (Uses g) b.plugins.all) e h.one_finder);
  }

  found-Inputs :
      (b : Building) (f : PbFinder)
      → b.finder ≡ none
      → Inputs b
      → Inputs (record b { finder = some f })
  found-Inputs b f e h = record {
    ordered = found-IsOrdered b f e h.ordered;
    no_outputs = h.no_outputs;
  }

  Holds-with_finder :
      (P : Building → Type 0) (b : Building) (addr : Option Bytes)
      (stage : PbFinder → Building → Option Building)
      → P b
      → ((f : PbFinder) → b.finder ≡ none → P b → P (record b { finder = some f }))
      → ((f : PbFinder) (b' : Building) → P b' → b'.finder ≡ some f → Holds P (stage f b'))
      → Holds P (with_finder b addr stage)
  unfolding with_finder use_finder
  Holds-with_finder P b addr stage h found k = go b.finder addr refl
    where
      go :
          (g : Option PbFinder) (a : Option Bytes) → b.finder ≡ g → Holds P (use_finder g a b stage)
      go (some f) a e = k f b h e
      go none none e = tt
      go none (some a) e =
          k (reflection_pb_finder a) (record b { finder = some (reflection_pb_finder a) })
            (found (reflection_pb_finder a) e h) refl

  Holds-if :
      (P : Building → Type 0) (t : Bool) (x y : Option Building)
      → Holds P x
      → Holds P y
      → Holds P (if t then x else y)
  Holds-if P true x y h k = h
  Holds-if P false x y h k = k

  add_raw-Inputs :
      (settings : AppSettings) (b : Building) (item : Bytes)
      → Inputs b
      → Holds Inputs (add_raw settings b item)
  unfolding add_raw
  add_raw-Inputs settings b item h = go (s.split_host_port item)
    where
      raw :
          (r : Result InputError RawInput) (f : PbFinder) (b' : Building)
          → Inputs b'
          → b'.finder ≡ some f
          → Holds Inputs (register_raw r f b')
      raw (ok i) f b' h' e = registered-Inputs b' (raw_input (some i) f) h' refl e
      raw (err x) f b' h' e = registered-Inputs b' (raw_input none f) h' refl e
      raw panic f b' h' e = tt

      go : (o : Option (Bytes × Bytes)) → Holds Inputs (raw_at settings b item o)
      go none = h
      go (some (host, port)) =
          let r = new_raw_input s.split_host_port s.interfaces item settings.record_response in
          Holds-with_finder Inputs b (find_one_server_addr host port) (register_raw r) h
            (λ f e k. found-Inputs b f e k) (raw r)

  add_grpc-IsOrdered :
      (settings : AppSettings) (b : Building) (item : Bytes)
      → IsOrdered b
      → Holds IsOrdered (add_grpc settings b item)
  unfolding add_grpc
  add_grpc-IsOrdered settings b item h = go (extract_addr item)
    where
      go : (o : Option Bytes) → Holds IsOrdered (grpc_at settings b o)
      go none = tt
      go (some addr) =
          Holds-with_finder IsOrdered b (some addr)
            (λ f b'. some (registered b' (grpc_output addr settings.output_grpc_worker_number f))) h
            (λ f e k. found-IsOrdered b f e k)
            (λ f b' k e.
              registered-IsOrdered b' (grpc_output addr settings.output_grpc_worker_number f) k refl
                e)

  the_inputs-Inputs : (settings : AppSettings) → Holds Inputs (the_inputs settings)
  unfolding add_file_input add_queue_input
  the_inputs-Inputs settings =
      let start : Building = record {
        finder = first_finder settings.proto_files;
        plugins = no_plugins;
      } in
      let h : Inputs start = record {
        ordered = record { together = refl; readers = tt; writers = tt; one_finder = tt };
        no_outputs = refl;
      } in
      Holds-next_stage Inputs Inputs _ (add_queue_input settings)
        (Holds-next_stage Inputs Inputs _
          (λ b. each (add_file_input settings) b settings.input_file_dir)
          (Holds-each Inputs (add_raw settings) (add_raw-Inputs settings) start settings.input_raw
            h)
          (λ b k.
            Holds-each Inputs (add_file_input settings)
              (λ b' path k'.
                Holds-if Inputs (is_valid_dir path) _ _ (registered-Inputs b' _ k' refl tt) tt)
              b settings.input_file_dir k))
        (λ b k.
          Holds-if Inputs (has_any settings.input_rocketmq_name_server) _ _
            (registered-Inputs b _ k refl tt) k)

  the_outputs-IsOrdered :
      (settings : AppSettings) (b : Building)
      → IsOrdered b
      → Holds IsOrdered (the_outputs settings b)
  unfolding add_file_output add_queue_output add_stdout
  the_outputs-IsOrdered settings b h =
      Holds-next_stage IsOrdered IsOrdered _
        (λ b'. each (add_file_output settings) b' settings.output_file_dir)
        (Holds-next_stage IsOrdered IsOrdered _
          (λ b'. each (add_grpc settings) b' settings.output_grpc)
          (Holds-next_stage IsOrdered IsOrdered _ (add_queue_output settings)
            (Holds-if IsOrdered settings.output_stdout _ _ (registered-IsOrdered b _ h refl tt) h)
            (λ b' k.
              Holds-if IsOrdered (has_any settings.output_rocketmq_name_server) _ _
                (registered-IsOrdered b' _ k refl tt) k))
          (λ b' k.
            Holds-each IsOrdered (add_grpc settings) (add_grpc-IsOrdered settings) b'
              settings.output_grpc k))
        (λ b' k.
          Holds-each IsOrdered (add_file_output settings)
            (λ b1 path k'.
              Holds-if IsOrdered (is_valid_dir path) _ _ (registered-IsOrdered b1 _ k' refl tt) tt)
            b' settings.output_file_dir k)

  -- If the construction does not end the program, the list of all plugins is the inputs and, behind
  -- them, the outputs; the inputs have Read, the outputs Write; and all plugins that look types up do
  -- so with one finder, the one that is left at the end.
  pub new_plugins-IsOrdered :
      (settings : AppSettings) (b : Building) → new_plugins settings ≡ some b → IsOrdered b
  unfolding new_plugins
  new_plugins-IsOrdered settings b e = subst (Holds IsOrdered) e (
      Holds-next_stage Inputs IsOrdered (the_inputs settings) (the_outputs settings)
        (the_inputs-Inputs settings) (λ b' k. the_outputs-IsOrdered settings b' k.ordered))
