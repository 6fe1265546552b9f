-- ===== src/Config/Defaults.antt =====
-- runtime_config.cpp: the built-in signatures and the built-in layout.
use hardware_assisted_game_s.Base.{false, none, List, [], ◌∷◌, codes, ℕ}
use hardware_assisted_game_s.Base.Maps.{insert, bytes_key}
use Prim.Native.String.{String}
use hardware_assisted_game_s.Config.{
  SignatureValueKind, rva, immediate, SignatureCallback, no_callback, view_angles,
  local_player_pawn, SignatureCandidate, SignatureDatabase, LayoutConfig, Values,
}

-- The lambda `add` of `SignatureDatabase::defaults`.
abbrev pub built_in :
    String → String → SignatureValueKind → SignatureCallback → String → SignatureCandidate
built_in m n kind callback pattern_text = record {
  module_name = codes m;
  name = codes n;
  kind = kind;
  callback = callback;
  pattern_text = codes pattern_text;
  external = false;
}

unfoldable pub default_signatures : SignatureDatabase
default_signatures = record {
  candidates_ =
      built_in "client.dll" "__ButtonList" rva no_callback "488b15${'} 4885d2 74? 488b02 4885c0"
      ∷ built_in "client.dll" "__ViewAngles" immediate no_callback "f2420f108428u4"
      ∷ built_in "client.dll" "__LocalPlayerPawn" immediate no_callback "4c39b6u4 74? 4488be"
      ∷ built_in "schemasystem.dll" "__SchemaSystem" rva no_callback "4c8d35${'} 0f2845"
      ∷ built_in "schemasystem.dll" "__SchemaSystem" rva no_callback
          "488905${'} 4c8d0d${} 0fb645? 4c8d45? 33f6"
      ∷ built_in "client.dll" "dwCSGOInput" rva view_angles "488905${'} 0f57c0 0f1105"
      ∷ built_in "client.dll" "dwEntityList" rva no_callback "48890d${'} e9${} cc"
      ∷ built_in "client.dll" "dwEntityList" rva no_callback "488935${'} 4885f6"
      ∷ built_in "client.dll" "dwGameEntitySystem" rva no_callback "488b1d${'} 48891d[4] 4c63b3"
      ∷ built_in "client.dll" "dwGameEntitySystem_highestEntityIndex" immediate no_callback
          "ff81u4 4885d2"
      ∷ built_in "client.dll" "dwGameRules" rva no_callback "f6c1010f85${} 4c8b05${'} 4d85"
      ∷ built_in "client.dll" "dwGlobalVars" rva no_callback "488915${'} 488942"
      ∷ built_in "client.dll" "dwGlowManager" rva no_callback "488b05${'} c3 cccccccccccccccc 8b41"
      ∷ built_in "client.dll" "dwLocalPlayerController" rva no_callback "488b05${'} 4189be"
      ∷ built_in "client.dll" "dwPlantedC4" rva no_callback "488b1d${'} 4532f6"
      ∷ built_in "client.dll" "dwPrediction" rva local_player_pawn
          "488d05${'} c3 cccccccccccccccc 405356 4154"
      ∷ built_in "client.dll" "dwSensitivity" rva no_callback "488d0d${[8]'} 660f6ecd"
      ∷ built_in "client.dll" "dwViewMatrix" rva no_callback "488d0d${'} 48c1e006"
      ∷ built_in "client.dll" "dwViewRender" rva no_callback "488905${'} 488bc8 4885c0"
      ∷ built_in "client.dll" "dwWeaponC4" rva no_callback
          "488b15${'} 488b5c24? ffc0 8905${} 488bc6 488934ea 80be"
      ∷ built_in "engine2.dll" "dwBuildNumber" rva no_callback "8905${'} 488d0d${} ff15${} 488b0d"
      ∷ built_in "engine2.dll" "dwBuildNumber" rva no_callback "8905${'} 488d0d${} ff15${}"
      ∷ built_in "engine2.dll" "dwNetworkGameClient" rva no_callback "48893d${'} ff87"
      ∷ built_in "engine2.dll" "dwNetworkGameClient" rva no_callback "48893d${'} 488d15"
      ∷ built_in "engine2.dll" "dwNetworkGameClient_clientTickCount" immediate no_callback
          "8b81u4 c3 cccccccccccccccccc 8b81${} c3 cccccccccccccccccc 83b9"
      ∷ built_in "engine2.dll" "dwNetworkGameClient_deltaTick" immediate no_callback
          "4c8db7u4 4c897c24"
      ∷ built_in "engine2.dll" "dwNetworkGameClient_deltaTick" immediate no_callback "8983u4 40b7"
      ∷ built_in "engine2.dll" "dwNetworkGameClient_isBackgroundMap" immediate no_callback
          "0fb681u4 c3 cccccccccccccccc 0fb681${} c3 cccccccccccccccc 4883ec"
      ∷ built_in "engine2.dll" "dwNetworkGameClient_localPlayer" immediate no_callback
          "428b94d3u4 5b 49ffe3 32c0 5b c3 cccccccccccccccc 4053"
      ∷ built_in "engine2.dll" "dwNetworkGameClient_maxClients" immediate no_callback
          "8b81u4 c3????????? 8b81[4] c3????????? 8b81"
      ∷ built_in "engine2.dll" "dwNetworkGameClient_serverTickCount" immediate no_callback
          "8b81u4 c3 cccccccccccccccccc 83b9"
      ∷ built_in "engine2.dll" "dwNetworkGameClient_signOnState" immediate no_callback
          "448b81u4 488d0d"
      ∷ built_in "engine2.dll" "dwWindowHeight" rva no_callback "8b05${'} 8903"
      ∷ built_in "engine2.dll" "dwWindowWidth" rva no_callback "8b05${'} 8907"
      ∷ built_in "inputsystem.dll" "dwInputSystem" rva no_callback "488905${'} 33c0"
      ∷ built_in "matchmaking.dll" "dwGameTypes" rva no_callback "488d0d${'} ff90"
      ∷ built_in "soundsystem.dll" "dwSoundSystem" rva no_callback
          "488d0d${'} e8${} 488b0d${} [3] 4c8b82"
      ∷ built_in "soundsystem.dll" "dwSoundSystem_engineViewData" immediate no_callback
          "0f1147u1 0f104e? 0f118f"
      ∷ [];
  loaded_file = none;
}

-- The assignments of `LayoutConfig::defaults`, the first one first.
abbrev pub assign_all : List (String × ℕ) → Values → Values
assign_all [] values = values
assign_all ((key, v) ∷ rest) values = assign_all rest (insert (codes key) v values)

unfoldable pub default_layout : LayoutConfig
default_layout = record {
  values =
      assign_all
        (("button.name", 0x08)
          ∷ ("button.state", 0x30)
          ∷ ("button.next", 0x88)
          ∷ ("offset.dwSensitivity_sensitivity", 0x58)
          ∷ ("interface.create_fn", 0x00)
          ∷ ("interface.name", 0x08)
          ∷ ("interface.next", 0x10)
          ∷ ("schema_system.type_scopes", 0x190)
          ∷ ("schema_system.registration_count", 0x280)
          ∷ ("utl_vector.count", 0x00)
          ∷ ("utl_vector.data", 0x08)
          ∷ ("type_scope.name", 0x08)
          ∷ ("type_scope.name_size", 256)
          ∷ ("type_scope.class_bindings", 0x560)
          ∷ ("type_scope.enum_bindings", 0x1dd0)
          ∷ ("hash.entry_mem", 0x00)
          ∷ ("hash.buckets", 0x60)
          ∷ ("hash.bucket_count", 256)
          ∷ ("hash.bucket_stride", 0x18)
          ∷ ("hash.bucket.first_uncommitted", 0x10)
          ∷ ("hash_node.next", 0x08)
          ∷ ("hash_node.data", 0x10)
          ∷ ("hash_blob.next", 0x00)
          ∷ ("hash_blob.data", 0x10)
          ∷ ("memory_pool.blocks_allocated", 0x0c)
          ∷ ("memory_pool.peak_allocated", 0x10)
          ∷ ("memory_pool.free_blocks_head_next", 0x20)
          ∷ ("class.name", 0x08)
          ∷ ("class.module_name", 0x18)
          ∷ ("class.field_count", 0x24)
          ∷ ("class.metadata_count", 0x26)
          ∷ ("class.fields", 0x30)
          ∷ ("class.base_classes", 0x40)
          ∷ ("class.metadata", 0x48)
          ∷ ("base_class_info.class", 0x18)
          ∷ ("base_class.name", 0x10)
          ∷ ("field.stride", 0x20)
          ∷ ("field.name", 0x00)
          ∷ ("field.type", 0x08)
          ∷ ("field.offset", 0x10)
          ∷ ("schema_type.name", 0x08)
          ∷ ("metadata.stride", 0x10)
          ∷ ("metadata.name", 0x00)
          ∷ ("metadata.network_value", 0x08)
          ∷ ("network_value.name_ptr", 0x00)
          ∷ ("network_value.var_name", 0x00)
          ∷ ("network_value.var_type", 0x08)
          ∷ ("enum.name", 0x08)
          ∷ ("enum.alignment", 0x19)
          ∷ ("enum.enumerator_count", 0x1c)
          ∷ ("enum.enumerators", 0x20)
          ∷ ("enumerator.stride", 0x20)
          ∷ ("enumerator.name", 0x00)
          ∷ ("enumerator.value", 0x08)
          ∷ [])
        [];
  loaded_file = none;
}
