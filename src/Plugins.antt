-- ===== src/Plugins.antt =====
-- src/libPMacc/include/pluginSystem/PluginConnector.hpp, IPlugin.hpp and INotify.hpp: the
-- registered plugins, and the calls that they get. A plugin is a pointer, 0 is NULL. What the
-- virtual functions of a plugin do is a parameter: they change the rest of the program, a value of
-- `World`, and not the lists of the connector.
mod Tests
pub mod Notify
pub mod Load
use piconalpaka.Prelude.{
  ℕ, suc, ◌%◌, Bool, true, false, not, Option, none, some, List, [], ◌∷◌, ◌++◌, ◌==◌, ltb,
  if◌then◌else◌, update, reverse,
}

-- The lists of `PluginConnector`, and `loaded`, `lastNotify` and `lastCheckpoint` of each plugin.
pub record Connector (World : Type 0) : Type 0 where
  pub plugins : List ℕ
  pub notification_list : List (ℕ × ℕ)
  pub loaded : ℕ → Bool
  pub last_notify : ℕ → ℕ
  pub last_checkpoint : ℕ → ℕ
  pub world : World

module _ {World : Type 0} where
  -- `registerPlugin`; `none` is the `PluginException`.
  unfoldable pub register_plugin : ℕ → Connector World → Option (Connector World)
  register_plugin plugin s =
      if not (plugin == 0) then some (record s { plugins = s.plugins ++ plugin ∷ [] }) else none

  -- `setNotificationPeriod`
  unfoldable pub set_notification_period : ℕ → ℕ → Connector World → Option (Connector World)
  set_notification_period notified_obj period s =
      if not (notified_obj == 0)
      then some (
          if ltb 0 period
          then record s { notification_list = s.notification_list ++ (notified_obj, period) ∷ [] }
          else s)
      else none

-- `pluginLoad` and `pluginUnload`
module _ {World : Type 0} (plugin_load plugin_unload : ℕ → World → World) where
  -- `IPlugin::load` and `IPlugin::unload`
  unfoldable pub load : ℕ → Connector World → Connector World
  load p s = record s { world = plugin_load p s.world; loaded = update s.loaded p true }

  unfoldable pub unload : ℕ → Connector World → Connector World
  unload p s = record s { world = plugin_unload p s.world; loaded = update s.loaded p false }

  unfoldable pub load_each : List ℕ → Connector World → Connector World
  load_each [] s = s
  load_each (p ∷ ps) s = load_each ps (if s.loaded p then s else load p s)

  unfoldable pub unload_each : List ℕ → Connector World → Connector World
  unload_each [] s = s
  unload_each (p ∷ ps) s = unload_each ps (if s.loaded p then unload p s else s)

  -- `loadPlugins` and `unloadPlugins` go through the list from its end.
  unfoldable pub load_plugins : Connector World → Connector World
  load_plugins s = load_each (reverse s.plugins) s

  unfoldable pub unload_plugins : Connector World → Connector World
  unload_plugins s = unload_each (reverse s.plugins) s

-- `notify`
module _ {World : Type 0} (notify : ℕ → ℕ → World → World) where
  unfoldable pub notify_each : ℕ → List (ℕ × ℕ) → Connector World → Connector World
  notify_each step [] s = s
  notify_each step ((p, period) ∷ ps) s = notify_each step ps (
      if step % period == 0
      then record s { world = notify p step s.world; last_notify = update s.last_notify p step }
      else s)

  -- `notifyPlugins`
  unfoldable pub notify_plugins : ℕ → Connector World → Connector World
  notify_plugins step s = notify_each step s.notification_list s

-- `checkpoint` and `restart`, with a directory
module _ {World Directory : Type 0} (checkpoint restart : ℕ → ℕ → Directory → World → World) where
  unfoldable pub checkpoint_each : ℕ → Directory → List ℕ → Connector World → Connector World
  checkpoint_each step dir [] s = s
  checkpoint_each step dir (p ∷ ps) s = checkpoint_each step dir ps (record s {
    world = checkpoint p step dir s.world;
    last_checkpoint = update s.last_checkpoint p step;
  })

  -- `checkpointPlugins`
  unfoldable pub checkpoint_plugins : ℕ → Directory → Connector World → Connector World
  checkpoint_plugins step dir s = checkpoint_each step dir s.plugins s

  unfoldable pub restart_each : ℕ → Directory → List ℕ → Connector World → Connector World
  restart_each step dir [] s = s
  restart_each step dir (p ∷ ps) s =
      restart_each step dir ps (record s { world = restart p step dir s.world })

  -- `restartPlugins`
  unfoldable pub restart_plugins : ℕ → Directory → Connector World → Connector World
  restart_plugins step dir s = restart_each step dir s.plugins s
