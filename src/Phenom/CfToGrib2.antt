-- ===== src/Phenom/CfToGrib2.antt =====
-- CF_TO_GRIB2 of _grib_cf_map.py, as it is written: a key that is written twice stands here twice.
use gribbi.Base.{none, some, [], ◌∷◌, pair_eq}
use gribbi.Base.Dict.{Dict}
use gribbi.Phenom.Names.{CfName, cf_name, G2Param, g2_param}

abbrev pub cf_to_grib2 : Dict CfName G2Param
cf_to_grib2 =
    (cf_name none (some "WAFC_CAT_potential") "1", g2_param 2 0 19 22)
    ∷ (cf_name none (some "WAFC_CB_horizontal_extent") "1", g2_param 2 0 6 25)
    ∷ (cf_name none (some "WAFC_ICAO_height_at_cloud_base") "m", g2_param 2 0 6 26)
    ∷ (cf_name none (some "WAFC_ICAO_height_at_cloud_top") "m", g2_param 2 0 6 27)
    ∷ (cf_name none (some "WAFC_icing_potential") "1", g2_param 2 0 19 20)
    ∷ (cf_name none (some "WAFC_in-cloud_turb_potential") "1", g2_param 2 0 19 21)
    ∷ (
      cf_name none (some "cloud_area_fraction_assuming_maximum_random_overlap") "1",
      g2_param 2 0 6 1,
    )
    ∷ (cf_name none (some "cloud_mixing_ratio") "kg kg-1", g2_param 2 0 1 22)
    ∷ (cf_name none (some "convective_inhibition") "J kg-1", g2_param 2 0 7 7)
    ∷ (cf_name none (some "ertel_potential_velocity") "K m2 kg-1 s-1", g2_param 2 0 2 14)
    ∷ (cf_name none (some "grib_physical_atmosphere_albedo") "%", g2_param 2 0 19 1)
    ∷ (cf_name none (some "icao_standard_atmosphere_reference_height") "m", g2_param 2 0 3 3)
    ∷ (cf_name none (some "precipitable_water") "kg m-2", g2_param 2 0 1 3)
    ∷ (cf_name none (some "storm_relative_helicity") "J kg-1", g2_param 2 0 7 8)
    ∷ (cf_name (some "air_potential_temperature") none "K", g2_param 2 0 0 2)
    ∷ (cf_name (some "air_pressure") none "Pa", g2_param 2 0 3 0)
    ∷ (cf_name (some "air_pressure_at_sea_level") none "Pa", g2_param 2 0 3 0)
    ∷ (cf_name (some "air_pressure_at_sea_level") none "Pa", g2_param 2 0 3 1)
    ∷ (cf_name (some "air_temperature") none "K", g2_param 2 0 0 0)
    ∷ (cf_name (some "altitude") none "m", g2_param 2 0 3 6)
    ∷ (cf_name (some "atmosphere_absolute_vorticity") none "s-1", g2_param 2 0 2 10)
    ∷ (
      cf_name (some "atmosphere_mass_content_of_cloud_liquid_water") none "kg m-2",
      g2_param 2 0 6 6,
    )
    ∷ (cf_name (some "atmosphere_mass_content_of_water") none "kg m-2", g2_param 2 0 1 51)
    ∷ (cf_name (some "atmosphere_mass_content_of_water_vapor") none "kg m-2", g2_param 2 0 1 64)
    ∷ (cf_name (some "atmosphere_mole_content_of_ozone") none "Dobson", g2_param 2 0 14 0)
    ∷ (cf_name (some "atmosphere_relative_vorticity") none "s-1", g2_param 2 0 2 12)
    ∷ (
      cf_name (some "atmosphere_specific_convective_available_potential_energy") none "J kg-1",
      g2_param 2 0 7 6,
    )
    ∷ (cf_name (some "convective_rainfall_amount") none "kg m-2", g2_param 2 0 1 10)
    ∷ (cf_name (some "convective_rainfall_flux") none "kg m-2 s-1", g2_param 2 0 1 37)
    ∷ (cf_name (some "convective_snowfall_flux") none "kg m-2 s-1", g2_param 2 0 1 58)
    ∷ (cf_name (some "cloud_area_fraction_in_atmosphere_layer") none "%", g2_param 2 0 6 7)
    ∷ (cf_name (some "dew_point_temperature") none "K", g2_param 2 0 0 6)
    ∷ (cf_name (some "geopotential") none "m2 s-2", g2_param 2 0 3 4)
    ∷ (cf_name (some "geopotential_height") none "m", g2_param 2 0 3 5)
    ∷ (cf_name (some "geopotential_height_anomaly") none "m", g2_param 2 0 3 9)
    ∷ (cf_name (some "high_type_cloud_area_fraction") none "%", g2_param 2 0 6 5)
    ∷ (cf_name (some "humidity_mixing_ratio") none "kg kg-1", g2_param 2 0 1 2)
    ∷ (cf_name (some "lagrangian_tendency_of_air_pressure") none "Pa s-1", g2_param 2 0 2 8)
    ∷ (cf_name (some "land_area_fraction") none "1", g2_param 2 2 0 0)
    ∷ (cf_name (some "land_binary_mask") none "1", g2_param 2 2 0 0)
    ∷ (cf_name (some "liquid_water_content_of_surface_snow") none "kg m-2", g2_param 2 0 1 13)
    ∷ (cf_name (some "low_type_cloud_area_fraction") none "%", g2_param 2 0 6 3)
    ∷ (cf_name (some "mass_fraction_of_cloud_ice_in_air") none "kg kg-1", g2_param 2 0 1 84)
    ∷ (
      cf_name (some "mass_fraction_of_cloud_liquid_water_in_air") none "kg kg-1",
      g2_param 2 0 1 83,
    )
    ∷ (cf_name (some "medium_type_cloud_area_fraction") none "%", g2_param 2 0 6 4)
    ∷ (cf_name (some "moisture_content_of_soil_layer") none "kg m-2", g2_param 2 2 0 22)
    ∷ (cf_name (some "precipitation_amount") none "kg m-2", g2_param 2 0 1 49)
    ∷ (cf_name (some "precipitation_flux") none "kg m-2 s-1", g2_param 2 0 1 7)
    ∷ (cf_name (some "relative_humidity") none "%", g2_param 2 0 1 1)
    ∷ (cf_name (some "sea_ice_area_fraction") none "1", g2_param 2 10 2 0)
    ∷ (cf_name (some "sea_surface_temperature") none "K", g2_param 2 10 3 0)
    ∷ (cf_name (some "sea_water_x_velocity") none "m s-1", g2_param 2 10 1 2)
    ∷ (cf_name (some "sea_water_y_velocity") none "m s-1", g2_param 2 10 1 3)
    ∷ (cf_name (some "snowfall_amount") none "kg m-2", g2_param 2 0 1 60)
    ∷ (cf_name (some "snowfall_flux") none "kg m-2 s-1", g2_param 2 0 1 53)
    ∷ (cf_name (some "soil_moisture_content") none "kg m-2", g2_param 2 2 0 3)
    ∷ (cf_name (some "soil_temperature") none "K", g2_param 2 2 0 2)
    ∷ (cf_name (some "specific_humidity") none "kg kg-1", g2_param 2 0 1 0)
    ∷ (cf_name (some "stratiform_rainfall_amount") none "kg m-2", g2_param 2 0 1 9)
    ∷ (cf_name (some "stratiform_rainfall_flux") none "kg m-2 s-1", g2_param 2 0 1 77)
    ∷ (cf_name (some "stratiform_snowfall_amount") none "kg m-2", g2_param 2 0 1 15)
    ∷ (cf_name (some "stratiform_snowfall_flux") none "kg m-2 s-1", g2_param 2 0 1 59)
    ∷ (cf_name (some "surface_air_pressure") none "Pa", g2_param 2 0 3 0)
    ∷ (cf_name (some "surface_altitude") none "m", g2_param 2 2 0 7)
    ∷ (cf_name (some "surface_downwelling_longwave_flux_in_air") none "W m-2", g2_param 2 0 5 3)
    ∷ (cf_name (some "surface_downwelling_shortwave_flux_in_air") none "W m-2", g2_param 2 0 4 7)
    ∷ (cf_name (some "surface_net_downward_longwave_flux") none "W m-2", g2_param 2 0 5 5)
    ∷ (cf_name (some "surface_net_downward_shortwave_flux") none "W m-2", g2_param 2 0 4 9)
    ∷ (cf_name (some "surface_roughness_length") none "m", g2_param 2 2 0 1)
    ∷ (cf_name (some "surface_runoff_flux") none "kg m-2 s-1", g2_param 2 2 0 34)
    ∷ (cf_name (some "surface_temperature") none "K", g2_param 2 0 0 17)
    ∷ (cf_name (some "surface_upward_latent_heat_flux") none "W m-2", g2_param 2 0 0 10)
    ∷ (cf_name (some "surface_upward_sensible_heat_flux") none "W m-2", g2_param 2 0 0 11)
    ∷ (cf_name (some "toa_outgoing_longwave_flux") none "W m-2", g2_param 2 0 5 4)
    ∷ (cf_name (some "thickness_of_snowfall_amount") none "m", g2_param 2 0 1 11)
    ∷ (cf_name (some "upward_air_velocity") none "m s-1", g2_param 2 0 2 9)
    ∷ (cf_name (some "wet_bulb_potential_temperature") none "K", g2_param 2 0 0 32)
    ∷ (cf_name (some "wind_from_direction") none "degrees", g2_param 2 0 2 0)
    ∷ (cf_name (some "wind_speed") none "m s-1", g2_param 2 0 2 1)
    ∷ (cf_name (some "wind_speed_of_gust") none "m s-1", g2_param 2 0 2 22)
    ∷ (cf_name (some "x_wind") none "m s-1", g2_param 2 0 2 2)
    ∷ (cf_name (some "y_wind") none "m s-1", g2_param 2 0 2 3)
    ∷ []
